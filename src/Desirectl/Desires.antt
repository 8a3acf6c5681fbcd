-- ===== src/Desirectl/Desires.antt =====
-- cmd/desirectl/dynamodb.go and helpers.go, and internal/desireid: the tables of the tool, the document
-- of a resource, and the resource that a manifest names.
use rosa_hyperfleet_kube_app.Prelude.{
  ℕ, String, ◌||◌, Option, none, some, [], ◌∷◌, if◌then◌else◌, ◌==◌, string_eq,
}
use rosa_hyperfleet_kube_app.Base.{plain, wrapping, concat, Result, ok, err, ◌>>=◌}
use rosa_hyperfleet_kube_app.Api.{ApplyDesire, ApplyDesireSpec, ResourceReference}
use rosa_hyperfleet_kube_app.Database.Client.{Access, KubeApplierDb, new_kube_applier_db}
use rosa_hyperfleet_kube_app.Desirectl.Config.{
  Context, effective_specs_prefix, effective_status_prefix,
}
use rosa_hyperfleet_kube_app.Desirectl.ResourceTypes.{
  ResourceInfo, Folding, resource_type_from_manifest,
}

-- The struct clientPair.
pub record ClientPair (W : Type 0) : Type 0 where
  pub specs_db : KubeApplierDb W
  pub status_db : KubeApplierDb W

-- The end of newClientPair, with the client that the AWS configuration of the context gives.
unfoldable pub new_client_pair : {W V : Type 0} → Access W V → Context → ClientPair W
new_client_pair client active = record {
  specs_db =
      new_kube_applier_db client client (effective_specs_prefix active)
        (effective_specs_prefix active);
  status_db =
      new_kube_applier_db client client (effective_status_prefix active)
        (effective_status_prefix active);
}

-- The text that NewDocumentID hashes.
abbrev pub document_input : String → ResourceReference → String
document_input task_key r = concat (
    task_key ∷ "/" ∷ r.group ∷ "/" ∷ r.version ∷ "/" ∷ r.resource ∷ "/" ∷ r.namespace ∷ "/" ∷ r.name
    ∷ [])

-- `new_sha1` is uuid.NewSHA1 in the fixed namespace, as a text.
unfoldable pub new_document_id : (String → String) → String → ResourceReference → String
new_document_id new_sha1 task_key r = new_sha1 (document_input task_key r)

abbrev pub task_key : String
task_key = "desirectl"

-- What the tool uses of encoding/json, on a value of type any; of strings; of uuid; of sigs.k8s.io/yaml;
-- and of fmt, for a number.
pub record Libraries (J : Type 0) : Type 0 where
  -- json.Unmarshal into a map[string]any
  pub unmarshal_object : String → Result J
  -- obj[key], and the type assertions to string and to map[string]any
  pub member : J → String → Option J
  pub as_string : J → Option String
  pub as_object : J → Option J
  pub strings : Folding
  -- strings.TrimSuffix of an "s"
  pub trim_s : String → String
  pub new_sha1 : String → String
  pub yaml_to_json : String → Result String
  pub show_number : ℕ → String

module _ {J : Type 0} (lib : Libraries J) where
  -- `s, _ := obj[key].(string)`
  abbrev string_of : Option J → String
  string_of none = ""
  string_of (some v) = elim (lib.as_string v) [ none ↦ "" | some s ↦ s ]

  abbrev object_of : Option J → Option J
  object_of none = none
  object_of (some v) = lib.as_object v

  -- A field of the metadata, "" where that is nil or the field no text.
  abbrev metadata_text : Option J → String → String
  metadata_text none key = ""
  metadata_text (some metadata) key = string_of (lib.member metadata key)

  abbrev named_ref : ResourceReference → Result ResourceReference
  named_ref r = if r.name == "" then err (plain "manifest must have metadata.name") else ok r

  abbrev manifest_ref : Option J → ResourceInfo → ResourceReference
  manifest_ref metadata info = record {
    group = info.group;
    version = info.version;
    resource = info.resource;
    namespace = metadata_text metadata "namespace";
    name = metadata_text metadata "name";
  }

  abbrev object_ref : J → Result ResourceReference
  object_ref obj =
      let api_version = string_of (lib.member obj "apiVersion") in
      let kind = string_of (lib.member obj "kind") in
      if (api_version == "") || (kind == "")
      then err (plain "manifest must have apiVersion and kind")
      else elim (resource_type_from_manifest lib.strings api_version kind) [
        | err e ↦ err e
        | ok info ↦ named_ref (manifest_ref (object_of (lib.member obj "metadata")) info)
      ]

  unfoldable pub resource_ref_from_manifest : String → Result ResourceReference
  resource_ref_from_manifest raw =
      wrapping "manifest must be JSON" (lib.unmarshal_object raw) >>= object_ref

  unfoldable pub format_resource_name : ResourceInfo → String → String
  format_resource_name info name =
      if info.group == ""
      then concat (lib.trim_s info.resource ∷ "/" ∷ name ∷ [])
      else concat (lib.trim_s info.resource ∷ "." ∷ info.group ∷ "/" ∷ name ∷ [])

  unfoldable pub document_of : ResourceReference → String
  unfolding new_document_id
  document_of r = new_document_id lib.new_sha1 task_key r

-- The fields of a spec but for the manifest, whose JSON a table stores in a normal form.
abbrev pub spec_part : ApplyDesire → ApplyDesireSpec
spec_part d = record d.spec { server_side_apply = none }
