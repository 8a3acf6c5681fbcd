-- ===== src/DesireTool/Removing/Removed.antt =====
-- What the delete commands leave in the two tables.
use rosa_hyperfleet_kube_app.Prelude.{
  String, ◌≡◌, refl, ◌∙◌, inl, inr, true, none, some, List, [], ◌∷◌, ◌++◌, Bool-cases, Option-cases,
}
use rosa_hyperfleet_kube_app.Base.{GoError, ok, is_not_found_error}
use rosa_hyperfleet_kube_app.Api.{Desire}
use rosa_hyperfleet_kube_app.Database.Client.{ResourceCrud}
use rosa_hyperfleet_kube_app.Database.Client.Contract.{IsResourceCrud}
use rosa_hyperfleet_kube_app.DesireTool.{DocIdFlags, resolve}
use rosa_hyperfleet_kube_app.DesireTool.Removing.{noted, deleting_error, delete_command}

no_errors :
    (what : String) (a b : List String) → deleting_error what (a ++ b) ≡ none → (a ≡ []) × (b ≡ [])
no_errors what [] [] h = (refl, refl)
no_errors what [] (t ∷ b) h = absurd (cc h)
no_errors what (t ∷ a) b h = absurd (cc h)

noted-nil :
    (table : String) (e : GoError) → noted table (some e) ≡ [] → is_not_found_error (some e) ≡ true
noted-nil table e h = elim (Bool-cases (is_not_found_error (some e))) [
  | inl missing ↦ missing
  | inr other ↦ absurd (cc (rw other at h))
]

module _ {W T C : Type 0} ⦃t : Desire T⦄ (specs status : ResourceCrud W T) (what : String)
    (content : T → C) (specs_law : IsResourceCrud specs content)
    (status_law : IsResourceCrud status content) where
  gone :
      (crud : ResourceCrud W T) (law : IsResourceCrud crud content) (table id : String) (w : W)
      → ((e : GoError)
          → (crud.delete id w).0 ≡ some e
          → is_not_found_error (some e) ≡ true
          → law.stored (crud.delete id w).1 id ≡ none)
      → noted table (crud.delete id w).0 ≡ []
      → law.stored (crud.delete id w).1 id ≡ none
  gone crud law table id w missing quiet = elim (Option-cases (crud.delete id w).0) [
    | inl done ↦ law.delete-none id w done
    | inr (e, failed) ↦ missing e failed (noted-nil table e (rw failed at quiet))
  ]

  -- If a delete command reports no error, then neither the specs table nor the status table has anything
  -- under the document that its flags name. An ErrNotFound of a Delete must mean that there is
  -- nothing, and the Delete on the status table must not change the specs table.
  pub delete_command_removes :
      (new_sha1 : String → String) (f : DocIdFlags) (doc_id : String) (w : W)
      → ((id : String) (w' : W) (e : GoError)
          → (specs.delete id w').0 ≡ some e
          → is_not_found_error (some e) ≡ true
          → specs_law.stored (specs.delete id w').1 id ≡ none)
      → ((id : String) (w' : W) (e : GoError)
          → (status.delete id w').0 ≡ some e
          → is_not_found_error (some e) ≡ true
          → status_law.stored (status.delete id w').1 id ≡ none)
      → ((id id' : String) (w' : W)
          → specs_law.stored (status.delete id w').1 id' ≡ specs_law.stored w' id')
      → resolve new_sha1 f ≡ ok doc_id
      → (delete_command specs status what new_sha1 f w).0 ≡ none
      → (specs_law.stored (delete_command specs status what new_sha1 f w).1 doc_id ≡ none)
        × (status_law.stored (delete_command specs status what new_sha1 f w).1 doc_id ≡ none)
  unfolding delete_command
  delete_command_removes new_sha1 f doc_id w specs_missing status_missing apart named h =
      let w' = (specs.delete doc_id w).1 in
      let (first, second) =
        no_errors what (noted "specs-table" (specs.delete doc_id w).0)
          (noted "status-table" (status.delete doc_id w').0) (rw (delete_command, named) at h) in
      rw (delete_command, named)
        (
          apart doc_id doc_id w'
              ∙ gone specs specs_law "specs-table" doc_id w (specs_missing doc_id w) first,
          gone status status_law "status-table" doc_id w' (status_missing doc_id w') second,
        )
