-- ===== src/Desirectl/Deleting.antt =====
-- cmd/desirectl/delete.go: the desires that the delete command writes. What it prints is left out.
pub mod Lost
use rosa_hyperfleet_kube_app.Prelude.{
  String, Bool, true, false, Option, none, some, List, [], ◌∷◌, ◌++◌, if◌then◌else◌, ◌==◌,
  string_eq,
}
use rosa_hyperfleet_kube_app.Base.{
  GoError, plain, wrap, Result, ok, err, Io, is_already_exists_error,
}
use rosa_hyperfleet_kube_app.Api.{
  ApplyDesire, ApplyDesireSpec, DynamoDbMetadata, ResourceReference, zero_apply_desire,
  apply_desire_type_delete,
}
use rosa_hyperfleet_kube_app.Database.Client.{KubeApplierDb}
use rosa_hyperfleet_kube_app.Desirectl.Config.{Context, effective_namespace}
use rosa_hyperfleet_kube_app.Desirectl.ResourceTypes.{
  ResourceInfo, resource_type_from_manifest, resource_ref_from_gvr,
}
use rosa_hyperfleet_kube_app.Desirectl.Desires.{
  ClientPair, Libraries, resource_ref_from_manifest, document_of,
}
use rosa_hyperfleet_kube_app.Desirectl.Applying.{errors_occurred}

abbrev pub delete_spec : Context → ResourceReference → ApplyDesireSpec
delete_spec active ref = record {
  management_cluster = active.management_cluster;
  cluster_id = active.cluster_id;
  node_pool_name = active.node_pool;
  type = apply_desire_type_delete;
  target_item = ref;
  server_side_apply = none;
}

abbrev pub new_delete_desire : Context → ResourceReference → String → ApplyDesire
new_delete_desire active ref doc_id = record zero_apply_desire {
  metadata = record zero_apply_desire.metadata { document_id = doc_id };
  spec = delete_spec active ref;
}

-- The errors of both calls are ignored.
unfoldable pub cleanup_related_desires : {W : Type 0} → KubeApplierDb W → String → W → W
cleanup_related_desires db doc_id w =
    (db.read_desire_status.delete doc_id (db.apply_desire_status.delete doc_id w).1).1

-- A result as an error with a text.
abbrev pub failing : {T : Type 0} → String → Result T → Option GoError
failing s (ok out) = none
failing s (err e) = some (wrap s e)

module _ {W J : Type 0} (lib : Libraries J) (clients : ClientPair W) (active : Context) where
  abbrev overwrite : String → ApplyDesireSpec → Io W (Option GoError)
  overwrite doc_id spec w =
      let (r, w') = clients.specs_db.apply_desire_status.get doc_id w in
      elim r [
        | err e ↦ (some (wrap "getting existing delete desire" e), w')
        | ok existing ↦
            let (out, w'') =
              clients.specs_db.apply_desire_status.replace (record existing { spec = spec }) w' in
            (failing "updating delete desire" out, w'')
      ]

  -- Up to the cleanup.
  unfoldable pub write_delete_desire : ResourceReference → Io W (Option GoError)
  write_delete_desire ref w =
      let doc_id = document_of lib ref in
      let (r, w') =
        clients.specs_db.apply_desire_status.create (new_delete_desire active ref doc_id) w in
      elim r [
        | ok out ↦ (none, w')
        | err e ↦ elim (is_already_exists_error (some e)) [
          | true ↦ overwrite doc_id (delete_spec active ref) w'
          | false ↦ (some (wrap "creating delete desire" e), w')
        ]
      ]

  unfoldable pub run_delete : ResourceInfo → String → String → Io W (Option GoError)
  unfolding write_delete_desire cleanup_related_desires
  run_delete info name namespace w =
      let ref = resource_ref_from_gvr info namespace name in
      let (r, w') = write_delete_desire ref w in
      elim r [
        | some e ↦ (some e, w')
        | none ↦ (none, cleanup_related_desires clients.specs_db (document_of lib ref) w')
      ]

  abbrev delete_info : ResourceReference → ResourceInfo
  delete_info ref = elim (resource_type_from_manifest lib.strings "" ref.resource) [
    | ok info ↦ info
    | err e ↦ record {
      group = ref.group;
      version = ref.version;
      resource = ref.resource;
      kind = "";
      aliases = [];
    }
  ]

  -- `flag_namespace` is the flag's value.
  abbrev delete_document : String → String → Io W (Option GoError)
  delete_document flag_namespace doc w = elim (lib.yaml_to_json doc) [
    | err e ↦ (some (wrap "converting manifest" e), w)
    | ok json_data ↦ elim (resource_ref_from_manifest lib json_data) [
      | err e ↦ (some (wrap "parsing manifest" e), w)
      | ok ref ↦
          let namespace =
            if ref.namespace == ""
            then effective_namespace active flag_namespace
            else ref.namespace in
          run_delete (delete_info ref) ref.name namespace w
    ]
  ]

  abbrev delete_documents : String → List String → List GoError → Io W (List GoError)
  delete_documents flag_namespace [] errs w = (errs, w)
  delete_documents flag_namespace (doc ∷ docs) errs w =
      let (r, w') = delete_document flag_namespace doc w in
      elim r [
        | some e ↦ delete_documents flag_namespace docs (errs ++ e ∷ []) w'
        | none ↦ delete_documents flag_namespace docs errs w'
      ]

  unfoldable pub run_delete_from_file : String → List String → Io W (Option GoError)
  unfolding run_delete
  run_delete_from_file flag_namespace [] w =
      (some (plain "no manifests found in specified files"), w)
  run_delete_from_file flag_namespace (doc ∷ docs) w =
      let (errs, w') = delete_documents flag_namespace (doc ∷ docs) [] w in
      (errors_occurred lib errs, w')
