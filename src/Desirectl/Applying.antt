-- ===== src/Desirectl/Applying.antt =====
-- cmd/desirectl/apply.go: the desires that the apply command writes. What it prints is its result.
pub mod Written
use rosa_hyperfleet_kube_app.Prelude.{
  String, Bool, true, false, Option, none, some, List, [], ◌∷◌, ◌++◌, length, ◌==◌, string_eq,
}
use rosa_hyperfleet_kube_app.Base.{
  GoError, plain, wrap, concat, Result, ok, err, Io, is_already_exists_error,
}
use rosa_hyperfleet_kube_app.Api.{
  ApplyDesire, ApplyDesireSpec, ApplyDesireStatus, DynamoDbMetadata, ResourceReference,
  zero_apply_desire,
}
use rosa_hyperfleet_kube_app.Desirectl.Config.{Context}
use rosa_hyperfleet_kube_app.Desirectl.ResourceTypes.{resolve_resource_type}
use rosa_hyperfleet_kube_app.Desirectl.Desires.{
  ClientPair, Libraries, resource_ref_from_manifest, format_resource_name, document_of,
}

-- `fmt.Errorf("%d error(s) occurred", len(errs))`, if there are any.
abbrev pub errors_occurred : {J : Type 0} → Libraries J → List GoError → Option GoError
errors_occurred lib [] = none
errors_occurred lib (e ∷ errs) =
    some (plain (concat (lib.show_number (length (e ∷ errs)) ∷ " error(s) occurred" ∷ [])))

-- The fields of the spec that both paths set; the literal has no Type.
abbrev pub with_manifest : Context → ResourceReference → String → ApplyDesireSpec → ApplyDesireSpec
with_manifest active ref raw spec = record spec {
  management_cluster = active.management_cluster;
  cluster_id = active.cluster_id;
  node_pool_name = active.node_pool;
  target_item = ref;
  server_side_apply = some (record { kube_content = some (record { raw = raw }) });
}

abbrev pub new_apply_desire : Context → ResourceReference → String → String → ApplyDesire
new_apply_desire active ref raw doc_id = record zero_apply_desire {
  metadata = record zero_apply_desire.metadata { document_id = doc_id };
  spec = with_manifest active ref raw zero_apply_desire.spec;
}

module _ {W J : Type 0} (lib : Libraries J) (clients : ClientPair W) (active : Context) where
  abbrev display_name : ResourceReference → String
  display_name ref = elim (resolve_resource_type lib.strings ref.resource) [
    | ok info ↦ format_resource_name lib info ref.name
    | err e ↦ concat (ref.resource ∷ "/" ∷ ref.name ∷ [])
  ]

  -- A result of Replace or of Create as an action's.
  abbrev acted : String → String → String → Result ApplyDesire → Result (String × String)
  acted action verb name (ok out) = ok (action, name)
  acted action verb name (err e) = err (wrap (concat (verb ∷ " " ∷ name ∷ [])) e)

  -- From the Get of the desire that exists.
  abbrev update_existing : ResourceReference → String → String → Io W (Result (String × String))
  update_existing ref raw name w =
      let (r, w') = clients.specs_db.apply_desire_status.get (document_of lib ref) w in
      elim r [
        | err e ↦ (err (wrap (concat ("getting " ∷ name ∷ " for update" ∷ [])) e), w')
        | ok existing ↦
            let (out, w'') =
              clients.specs_db.apply_desire_status.replace
                (record existing { spec = with_manifest active ref raw existing.spec }) w' in
            (acted "configured" "updating" name out, w'')
      ]

  abbrev create_or_update : ResourceReference → String → Io W (Result (String × String))
  create_or_update ref raw w =
      let (r, w') =
        clients.specs_db.apply_desire_status.create
          (new_apply_desire active ref raw (document_of lib ref)) w in
      elim r [
        | ok out ↦ (ok ("created", display_name ref), w')
        | err e ↦ elim (is_already_exists_error (some e)) [
          | true ↦ update_existing ref raw (display_name ref) w'
          | false ↦ (acted "created" "creating" (display_name ref) (err e), w')
        ]
      ]

  -- The action and the name; the caller drops the name that comes with an error.
  unfoldable pub apply_manifest : String → Io W (Result (String × String))
  apply_manifest raw w = elim (resource_ref_from_manifest lib raw) [
    | err e ↦ (err (wrap "parsing manifest" e), w)
    | ok ref ↦ create_or_update ref raw w
  ]

  abbrev pub apply_document : String → Io W (Result (String × String))
  apply_document doc w = elim (lib.yaml_to_json doc) [
    | err e ↦ (err (wrap "converting manifest" e), w)
    | ok json_data ↦ apply_manifest json_data w
  ]

  -- The loop: the lines that are printed, and errs.
  unfoldable pub apply_documents :
      List String
      → List (String × String)
      → List GoError
      → Io W (List (String × String) × List GoError)
  unfolding apply_manifest
  apply_documents [] printed errs w = ((printed, errs), w)
  apply_documents (doc ∷ docs) printed errs w =
      let (r, w') = apply_document doc w in
      elim r [
        | err e ↦ apply_documents docs printed (errs ++ e ∷ []) w'
        | ok line ↦ apply_documents docs (printed ++ line ∷ []) errs w'
      ]

  -- The error that the command returns once its files are read.
  unfoldable pub run_apply : List String → Io W (Option GoError)
  unfolding apply_documents
  run_apply [] w = (some (plain "no manifests found in specified files"), w)
  run_apply (doc ∷ docs) w =
      let (r, w') = apply_documents (doc ∷ docs) [] [] w in (errors_occurred lib r.1, w')
