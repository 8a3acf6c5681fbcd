-- ===== src/DesireTool/Reading.antt =====
-- The get and list commands of cmd/desire-tool/main.go, with the lines that they print.
pub mod Reported
use rosa_hyperfleet_kube_app.Prelude.{
  ℕ, String, Bool, Option, none, some, List, [], ◌∷◌, ◌++◌, map, if◌then◌else◌, ◌==◌, string_eq,
  nat_eq,
}
use rosa_hyperfleet_kube_app.Base.{GoError, wrap, concat, Result, ok, err, Io, is_not_found_error}
use rosa_hyperfleet_kube_app.Api.{
  ApplyDesire, ReadDesire, DynamoDbMetadata, ResourceReference, RawExtension, Condition,
  ApplyDesireStatus, ReadDesireStatus, apply_desire_type_delete, get_spec_kube_content,
}
use rosa_hyperfleet_kube_app.Database.Client.{KubeApplierDb}

-- The texts of times and numbers, printIndentedJSON's use of encoding/json, and the padding of %-40s and
-- %-30s. A zero time is 0.
pub record Texts : Type 0 where
  pub show_time : ℕ → String
  pub show_number : ℕ → String
  -- json.Unmarshal and json.MarshalIndent with a prefix of so many spaces
  pub marshal_indent : ℕ → String → Result String
  -- %*s of the empty text
  pub spaces : ℕ → String
  pub columns : String → String → String

module _ (texts : Texts) where
  abbrev print_desire_header : String → DynamoDbMetadata → List String
  print_desire_header kind m =
      concat (kind ∷ ": " ∷ m.document_id ∷ [])
      ∷ concat ("  Created:      " ∷ texts.show_time m.create_time ∷ [])
      ∷ concat ("  Updated:      " ∷ texts.show_time m.update_time ∷ [])
      ∷ []

  -- A line that is left out for an empty text.
  abbrev line_unless_empty : String → String → List String
  line_unless_empty label s = if s == "" then [] else concat (label ∷ s ∷ []) ∷ []

  abbrev print_target_item : ResourceReference → List String
  print_target_item ref =
      "  Target Item:" ∷ line_unless_empty "    Group:      " ref.group
      ++ (concat ("    Version:    " ∷ ref.version ∷ [])
            ∷ concat ("    Resource:   " ∷ ref.resource ∷ [])
            ∷ line_unless_empty "    Namespace:  " ref.namespace
          ++ (concat ("    Name:       " ∷ ref.name ∷ []) ∷ []))

  abbrev print_spec : String → String → ResourceReference → List String
  print_spec cluster_id node_pool_name ref =
      concat ("  Cluster ID:   " ∷ cluster_id ∷ [])
        ∷ line_unless_empty "  Node Pool:    " node_pool_name
      ++ print_target_item ref

  abbrev line_unless_zero : String → (ℕ → String) → ℕ → List String
  line_unless_zero label show n = if n == 0 then [] else concat (label ∷ show n ∷ []) ∷ []

  abbrev print_condition : Condition → List String
  print_condition c =
      concat ("    - Type: " ∷ c.type ∷ ", Status: " ∷ c.status ∷ ", Reason: " ∷ c.reason ∷ [])
        ∷ line_unless_empty "      Message: " c.message
      ++ line_unless_zero "      LastTransition: " texts.show_time c.last_transition_time

  abbrev print_each : List Condition → List String
  print_each [] = []
  print_each (c ∷ conditions) = print_condition c ++ print_each conditions

  unfoldable pub print_conditions : List Condition → List String
  print_conditions [] = "  Conditions:   (none)" ∷ []
  print_conditions (c ∷ conditions) = "  Conditions:" ∷ print_each (c ∷ conditions)

  abbrev or_raw : String → Result String → String
  or_raw raw (ok formatted) = formatted
  or_raw raw (err e) = raw

  unfoldable pub print_indented_json : String → ℕ → List String
  print_indented_json raw indent =
      concat (texts.spaces indent ∷ or_raw raw (texts.marshal_indent indent raw) ∷ []) ∷ []

  -- `if spec.GetSpecKubeContent() != nil`
  abbrev print_content : Option RawExtension → List String
  print_content none = []
  print_content (some ext) = "  KubeContent:" ∷ print_indented_json ext.raw 4

  abbrev print_observed : Option RawExtension → List String
  print_observed none = []
  print_observed (some ext) =
      if ext.raw == "" then [] else "  KubeContent (observed):" ∷ print_indented_json ext.raw 4

  abbrev print_observed_time : ℕ → List String
  print_observed_time = line_unless_zero "  ObservedDesireUpdateTime: " texts.show_time

  -- The lines that a command prints, and its error.
  abbrev pub Output : Type 0
  Output = List String × Option GoError

  -- The end of each command, after the lines of the spec.
  abbrev status_output : {T : Type 0} → String → (T → List String) → Result T → List String → Output
  status_output s print (ok d) lines = (lines ++ print d, none)
  status_output s print (err e) lines =
      if is_not_found_error (some e)
      then (lines ++ ("  Status:       (no status document yet)" ∷ []), none)
      else (lines, some (wrap s e))

  -- The spec, and then the status.
  abbrev read_both :
      {W T : Type 0}
      → String
      → String
      → (T → List String)
      → (T → List String)
      → Io W (Result T)
      → Io W (Result T)
      → Io W Output
  read_both spec_error status_error print_spec_of print_status_of get_spec get_status w =
      let (r, w') = get_spec w in
      elim r [
        | err e ↦ (([], some (wrap spec_error e)), w')
        | ok spec ↦
            let (s, w'') = get_status w' in
            (status_output status_error print_status_of s (print_spec_of spec), w'')
      ]

  module _ {W : Type 0} (specs_db status_db : KubeApplierDb W) where
    unfoldable pub get_apply : String → Io W Output
    unfolding print_conditions print_indented_json
    get_apply doc_id =
        read_both "getting ApplyDesire spec" "getting ApplyDesire status"
          (λ spec.
            print_desire_header "ApplyDesire" spec.metadata
            ++ (print_spec spec.spec.cluster_id spec.spec.node_pool_name spec.spec.target_item
                ++ print_content (get_spec_kube_content spec)))
          (λ status.
            print_observed_time status.status.observed_desire_update_time
            ++ (line_unless_zero "  AppliedResourceGeneration: " texts.show_number
                  status.status.applied_resource_generation
                ++ print_conditions status.status.conditions))
          (specs_db.apply_desire_specs.get doc_id) (status_db.apply_desire_status.get doc_id)

    unfoldable pub get_delete : String → Io W Output
    unfolding print_conditions
    get_delete doc_id =
        read_both "getting ApplyDesire (Delete) spec" "getting ApplyDesire (Delete) status"
          (λ spec.
            print_desire_header "ApplyDesire (Type=Delete)" spec.metadata
            ++ print_spec spec.spec.cluster_id spec.spec.node_pool_name spec.spec.target_item)
          (λ status.
            print_observed_time status.status.observed_desire_update_time
            ++ print_conditions status.status.conditions)
          (specs_db.apply_desire_specs.get doc_id) (status_db.apply_desire_status.get doc_id)

    unfoldable pub get_read : String → Io W Output
    unfolding print_conditions print_indented_json
    get_read doc_id =
        read_both "getting ReadDesire spec" "getting ReadDesire status"
          (λ spec.
            print_desire_header "ReadDesire" spec.metadata
            ++ print_spec spec.spec.cluster_id spec.spec.node_pool_name spec.spec.target_item)
          (λ status.
            print_observed_time status.status.observed_desire_update_time
            ++ (print_conditions status.status.conditions
                ++ print_observed status.status.kube_content))
          (specs_db.read_desire_specs.get doc_id) (status_db.read_desire_status.get doc_id)

  -- One line of a list.
  abbrev pub list_line : String → ResourceReference → String
  list_line doc_id ref =
      texts.columns doc_id
        (concat (ref.version ∷ "/" ∷ ref.resource ∷ " " ∷ ref.namespace ∷ "/" ∷ ref.name ∷ []))

  abbrev pub apply_line : ApplyDesire → String
  apply_line d = list_line d.metadata.document_id d.spec.target_item

  abbrev pub read_line : ReadDesire → String
  read_line d = list_line d.metadata.document_id d.spec.target_item

  abbrev print_list : String → List String → Output
  print_list nothing [] = (nothing ∷ [], none)
  print_list nothing (line ∷ lines) = (texts.columns "DOCUMENT ID" "TARGET" ∷ line ∷ lines, none)

  abbrev listing :
      {T : Type 0} → String → String → (List T → List String) → Result (List T) → Output
  listing s nothing lines (err e) = ([], some (wrap s e))
  listing s nothing lines (ok desires) = print_list nothing (lines desires)

  -- The desires of type Delete.
  unfoldable pub deletions : List ApplyDesire → List ApplyDesire
  deletions [] = []
  deletions (d ∷ all) =
      let rest = deletions all in if d.spec.type == apply_desire_type_delete then d ∷ rest else rest

  module _ {W : Type 0} (specs_db : KubeApplierDb W) where
    unfoldable pub list_apply : Io W Output
    list_apply w =
        let (r, w') = specs_db.apply_desire_specs.list w in
        (listing "listing ApplyDesires" "No ApplyDesires found." (map apply_line) r, w')

    unfoldable pub list_delete : Io W Output
    unfolding deletions
    list_delete w =
        let (r, w') = specs_db.apply_desire_specs.list w in
        (
          listing "listing ApplyDesires" "No ApplyDesires (Type=Delete) found."
              (λ all. map apply_line (deletions all)) r,
          w',
        )

    unfoldable pub list_read : Io W Output
    list_read w =
        let (r, w') = specs_db.read_desire_specs.list w in
        (listing "listing ReadDesires" "No ReadDesires found." (map read_line) r, w')
