-- ===== src/Desirectl/Printing/Rows.antt =====
-- The extractors of cmd/desirectl/output.go: the cells of a resource from its manifest.
use rosa_hyperfleet_kube_app.Prelude.{
  String, Option, none, some, List, [], ◌∷◌, Assoc, insert, if◌then◌else◌, ◌==◌, string_eq,
}
use rosa_hyperfleet_kube_app.Prelude.Int.{ℤ, pos}
use rosa_hyperfleet_kube_app.Base.{concat, Result, ok, err}
use rosa_hyperfleet_kube_app.Desirectl.Printing.{Values, TableRow}

module _ {J : Type 0} (values : Values J) where
  -- m[key] of a map that may be nil.
  abbrev field_of : Option J → String → Option J
  field_of none key = none
  field_of (some m) key = values.member m key

  abbrev object_of : Option J → Option J
  object_of none = none
  object_of (some v) = values.as_object v

  abbrev text_or_empty : Option String → String
  text_or_empty none = ""
  text_or_empty (some s) = s

  abbrev text_of : Option J → String
  text_of none = ""
  text_of (some v) = text_or_empty (values.as_string v)

  abbrev or_zero : Option ℤ → ℤ
  or_zero none = pos 0
  or_zero (some n) = n

  abbrev int_of : Option J → ℤ
  int_of none = pos 0
  int_of (some v) = or_zero (values.as_int v)

  abbrev size_of : Option J → ℤ
  size_of none = pos 0
  size_of (some m) = values.size m

  unfoldable pub json_int : Option J → String → ℤ
  json_int m key = int_of (field_of m key)

  abbrev pub show_ratio : ℤ → ℤ → String
  show_ratio ready replicas = concat (values.show ready ∷ "/" ∷ values.show replicas ∷ [])

  unfoldable pub extract_deployment_fields : J → Assoc String String → Assoc String String
  unfolding json_int
  extract_deployment_fields obj extra =
      let status = object_of (values.member obj "status") in
      let spec = object_of (values.member obj "spec") in
      let ready = show_ratio (json_int status "readyReplicas") (json_int spec "replicas") in
      insert "AVAILABLE" (values.show (json_int status "availableReplicas")) (
        insert "UP-TO-DATE" (values.show (json_int status "updatedReplicas"))
          (insert "READY" ready extra))

  unfoldable pub extract_config_map_fields : J → Assoc String String → Assoc String String
  extract_config_map_fields obj extra =
      insert "DATA" (values.show (size_of (object_of (values.member obj "data")))) extra

  unfoldable pub extract_secret_fields : J → Assoc String String → Assoc String String
  extract_secret_fields obj extra =
      let type = text_of (values.member obj "type") in
      insert "DATA" (values.show (size_of (object_of (values.member obj "data"))))
        (insert "TYPE" (if type == "" then "Opaque" else type) extra)

  unfoldable pub extract_service_fields : J → Assoc String String → Assoc String String
  extract_service_fields obj extra =
      let spec = object_of (values.member obj "spec") in
      insert "CLUSTER-IP" (text_of (field_of spec "clusterIP"))
        (insert "TYPE" (text_of (field_of spec "type")) extra)

  abbrev list_of : Option J → Option (List J)
  list_of none = none
  list_of (some v) = values.as_list v

  -- for _, cs := range containerStatuses
  unfoldable pub total_restarts : List J → ℤ → ℤ
  unfolding json_int
  total_restarts [] total = total
  total_restarts (cs ∷ statuses) total = total_restarts statuses (elim (values.as_object cs) [
    | none ↦ total
    | some m ↦ values.add total (json_int (some m) "restartCount")
  ])

  abbrev with_restarts : Option (List J) → Assoc String String → Assoc String String
  with_restarts none extra = extra
  with_restarts (some statuses) extra =
      insert "RESTARTS" (values.show (total_restarts statuses (pos 0))) extra

  -- status["containerStatuses"].([]any)
  abbrev pub pod_statuses : J → Option (List J)
  pod_statuses obj = list_of (field_of (object_of (values.member obj "status")) "containerStatuses")

  unfoldable pub extract_pod_fields : J → Assoc String String → Assoc String String
  unfolding total_restarts
  extract_pod_fields obj extra =
      let status = object_of (values.member obj "status") in
      with_restarts (pod_statuses obj)
        (insert "RESTARTS" "0" (insert "STATUS" (text_of (field_of status "phase")) extra))

  unfoldable pub extract_stateful_set_fields : J → Assoc String String → Assoc String String
  unfolding json_int
  extract_stateful_set_fields obj extra =
      let status = object_of (values.member obj "status") in
      let spec = object_of (values.member obj "spec") in
      insert "READY" (show_ratio (json_int status "readyReplicas") (json_int spec "replicas")) extra

  unfoldable pub extract_daemon_set_fields : J → Assoc String String → Assoc String String
  unfolding json_int
  extract_daemon_set_fields obj extra =
      let status = object_of (values.member obj "status") in
      insert "READY" (values.show (json_int status "numberReady")) (
        insert "CURRENT" (values.show (json_int status "currentNumberScheduled"))
          (insert "DESIRED" (values.show (json_int status "desiredNumberScheduled")) extra))

  -- switch resType
  unfoldable pub extract_extra : String → J → Assoc String String
  unfolding extract_deployment_fields extract_config_map_fields extract_secret_fields
      extract_service_fields extract_pod_fields extract_stateful_set_fields
      extract_daemon_set_fields
  extract_extra res_type obj =
      if res_type == "deployments"
      then extract_deployment_fields obj []
      else if res_type == "configmaps"
      then extract_config_map_fields obj []
      else if res_type == "secrets"
      then extract_secret_fields obj []
      else if res_type == "services"
      then extract_service_fields obj []
      else if res_type == "pods"
      then extract_pod_fields obj []
      else if res_type == "statefulsets"
      then extract_stateful_set_fields obj []
      else if res_type == "daemonsets"
      then extract_daemon_set_fields obj []
      else []

  abbrev row_of : String → Result J → TableRow
  row_of res_type (err e) = record { name = ""; namespace = ""; extra = [] }
  row_of res_type (ok obj) =
      let metadata = object_of (values.member obj "metadata") in
      record {
        name = text_of (field_of metadata "name");
        namespace = text_of (field_of metadata "namespace");
        extra = extract_extra res_type obj;
      }

  unfoldable pub extract_table_row : String → String → TableRow
  unfolding extract_extra
  extract_table_row res_type kube_content = row_of res_type (values.unmarshal_object kube_content)
