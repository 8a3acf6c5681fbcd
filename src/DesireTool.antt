-- ===== src/DesireTool.antt =====
-- cmd/desire-tool/main.go: the developers' tool: the document that its flags name, the resource of a
-- manifest, and the clients of the two sets of tables.
pub mod Writing
pub mod Removing
pub mod Reading
pub mod Agreement
use rosa_hyperfleet_kube_app.Prelude.{
  ℕ, String, Bool, ◌||◌, Option, none, some, List, [], ◌∷◌, if◌then◌else◌, ◌==◌, string_eq,
}
use rosa_hyperfleet_kube_app.Base.{plain, wrapping, concat, Result, ok, err, ◌>>=◌}
use rosa_hyperfleet_kube_app.Api.{ResourceReference}
use rosa_hyperfleet_kube_app.Database.Client.{Access, KubeApplierDb, new_kube_applier_db}
use rosa_hyperfleet_kube_app.Desirectl.Desires.{ClientPair, Libraries, new_document_id}

-- twoDBClients, with the client that the flags give; the two prefixes are flags.
unfoldable pub two_db_clients : {W V : Type 0} → Access W V → String → String → ClientPair W
two_db_clients client specs_prefix status_prefix = record {
  specs_db = new_kube_applier_db client client specs_prefix specs_prefix;
  status_db = new_kube_applier_db client client status_prefix status_prefix;
}

pub record DocIdFlags : Type 0 where
  pub doc_id : String
  pub task_key : String
  pub group : String
  pub version : String
  pub resource : String
  pub namespace : String
  pub resource_name : String

abbrev pub flags_ref : DocIdFlags → ResourceReference
flags_ref f = record {
  group = f.group;
  version = f.version;
  resource = f.resource;
  namespace = f.namespace;
  name = f.resource_name;
}

unfoldable pub resolve : (String → String) → DocIdFlags → Result String
unfolding new_document_id
resolve new_sha1 f =
    if f.doc_id == ""
    then if (f.task_key == "")
        || ((f.version == "") || ((f.resource == "") || (f.resource_name == "")))
      then err (
          plain
            "provide either --doc-id or all of --task-key, --version, --resource, --resource-name")
      else ok (new_document_id new_sha1 f.task_key (flags_ref f))
    else ok f.doc_id

-- The cases of guessResource.
abbrev pub known_kinds : List (String × String)
known_kinds =
    ("ConfigMap", "configmaps")
    ∷ ("Secret", "secrets")
    ∷ ("Namespace", "namespaces")
    ∷ ("Service", "services")
    ∷ ("ServiceAccount", "serviceaccounts")
    ∷ ("Deployment", "deployments")
    ∷ ("StatefulSet", "statefulsets")
    ∷ ("DaemonSet", "daemonsets")
    ∷ ("Job", "jobs")
    ∷ ("CronJob", "cronjobs")
    ∷ ("Pod", "pods")
    ∷ ("ClusterRole", "clusterroles")
    ∷ ("ClusterRoleBinding", "clusterrolebindings")
    ∷ ("Role", "roles")
    ∷ ("RoleBinding", "rolebindings")
    ∷ []

-- `to_lower_first` is toLowerFirst, on the bytes of the text.
abbrev find_guess : (String → String) → String → List (String × String) → String
find_guess to_lower_first kind [] = concat (to_lower_first kind ∷ "s" ∷ [])
find_guess to_lower_first kind ((k, resource) ∷ kinds) =
    if k == kind then resource else find_guess to_lower_first kind kinds

unfoldable pub guess_resource : (String → String) → String → String
guess_resource to_lower_first kind = find_guess to_lower_first kind known_kinds

-- The parts of strings.SplitN(apiVersion, "/", 2) before and after the slash, if it has one.
module _ {J : Type 0} (lib : Libraries J) (split_slash : String → Option (String × String))
    (to_lower_first : String → String) where
  abbrev field_text : Option J → String
  field_text none = ""
  field_text (some v) = elim (lib.as_string v) [ none ↦ "" | some s ↦ s ]

  abbrev object_at : Option J → Option J
  object_at none = none
  object_at (some v) = lib.as_object v

  -- strFromMap
  abbrev pub str_from_map : Option J → String → String
  str_from_map none key = ""
  str_from_map (some m) key = field_text (lib.member m key)

  abbrev api_group : Option (String × String) → String
  api_group none = ""
  api_group (some (group, version)) = group

  abbrev api_version_of : String → Option (String × String) → String
  api_version_of api_version none = api_version
  api_version_of api_version (some (group, version)) = version

  abbrev object_resource : J → Result ResourceReference
  object_resource obj =
      let api_version = field_text (lib.member obj "apiVersion") in
      let kind = field_text (lib.member obj "kind") in
      let metadata = object_at (lib.member obj "metadata") in
      if (api_version == "") || (kind == "")
      then err (plain "manifest must have apiVersion and kind")
      else ok (record {
        group = api_group (split_slash api_version);
        version = api_version_of api_version (split_slash api_version);
        resource = guess_resource to_lower_first kind;
        namespace = str_from_map metadata "namespace";
        name = str_from_map metadata "name";
      })

  unfoldable pub manifest_resource : String → Result ResourceReference
  unfolding guess_resource
  manifest_resource raw =
      wrapping "manifest must be JSON" (lib.unmarshal_object raw) >>= object_resource
