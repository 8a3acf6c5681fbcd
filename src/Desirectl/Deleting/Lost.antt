-- ===== src/Desirectl/Deleting/Lost.antt =====
-- What the delete command leaves in the specs table.
use rosa_hyperfleet_kube_app.Prelude.{
  String, ◌≡◌, refl, sym, ap, ◌∙◌, inl, inr, none, some, Bool-cases, Option-cases,
}
use rosa_hyperfleet_kube_app.Base.{Result, ok, err, Result-cases, is_already_exists_error}
use rosa_hyperfleet_kube_app.Api.{ApplyDesire, ApplyDesireSpec, ResourceReference, apply_desire}
use rosa_hyperfleet_kube_app.Database.Client.Contract.{IsResourceCrud}
use rosa_hyperfleet_kube_app.Desirectl.Config.{Context}
use rosa_hyperfleet_kube_app.Desirectl.ResourceTypes.{ResourceInfo, resource_ref_from_gvr}
use rosa_hyperfleet_kube_app.Desirectl.Desires.{ClientPair, Libraries, document_of, spec_part}
use rosa_hyperfleet_kube_app.Desirectl.Deleting.{
  delete_spec, new_delete_desire, cleanup_related_desires, failing, overwrite, write_delete_desire,
  run_delete,
}

failing-none :
    {T : Type 0} (s : String) (r : Result T) → failing s r ≡ none → (out : T) × (r ≡ ok out)
failing-none s (ok out) h = (out, refl)
failing-none s (err e) h = absurd (cc h)

module _ {W J : Type 0} (lib : Libraries J) (clients : ClientPair W) (active : Context)
    (law : IsResourceCrud clients.specs_db.apply_desire_status spec_part) where
  open law use {stored, get-ok, create-ok, create-exists, replace-ok, delete-none}

  overwrite_stores :
      (id : String) (spec : ApplyDesireSpec) (w : W)
      → ((d : ApplyDesire) → stored w id ≡ some d → d.metadata.document_id ≡ id)
      → (overwrite lib clients active id spec w).0 ≡ none
      → (d : ApplyDesire) × (stored (overwrite lib clients active id spec w).1 id ≡ some d)
        × (spec_part d ≡ record spec { server_side_apply = none })
  overwrite_stores id spec w own h =
      let w' = (clients.specs_db.apply_desire_status.get id w).1 in
      elim (Result-cases (clients.specs_db.apply_desire_status.get id w).0) [
        | inl (e, failed) ↦ absurd (cc (rw (overwrite, failed) at h))
        | inr (existing, found) ↦
            let here = (get-ok id w existing found).0 in
            let new : ApplyDesire = record existing { spec = spec } in
            let (out, done) =
              failing-none "updating delete desire" _ (rw (overwrite, found) at h) in
            let (d, at, same) = replace-ok new out w' done in
            rw (overwrite, found)
              (
                d,
                ap (stored (clients.specs_db.apply_desire_status.replace new w').1)
                      (sym (own existing here))
                    ∙ at,
                same,
              )
      ]

  -- If the delete command's write reports no error, then the specs table has, under the resource's
  -- document, a desire of type Delete for it. What is stored there before must be a desire of
  -- that ID.
  pub write_delete_desire_stores :
      (ref : ResourceReference) (w : W)
      → ((d : ApplyDesire)
          → stored w (document_of lib ref) ≡ some d
          → d.metadata.document_id ≡ document_of lib ref)
      → (write_delete_desire lib clients active ref w).0 ≡ none
      → (d : ApplyDesire) × (stored
            (write_delete_desire lib clients active ref w).1
            (document_of lib ref)
          ≡ some d)
        × (spec_part d ≡ delete_spec active ref)
  unfolding write_delete_desire
  write_delete_desire_stores ref w own h =
      let id = document_of lib ref in
      let new = new_delete_desire active ref id in
      let w' = (clients.specs_db.apply_desire_status.create new w).1 in
      elim (Result-cases (clients.specs_db.apply_desire_status.create new w).0) [
        | inl (e, failed) ↦ elim (Bool-cases (is_already_exists_error (some e))) [
          | inl exists ↦
              let same = create-exists new w e id failed exists in
              rw (write_delete_desire, failed, exists)
                (overwrite_stores id (delete_spec active ref) w' (λ d here. own d (sym same ∙ here))
                  (rw (write_delete_desire, failed, exists) at h))
          | inr other ↦ absurd (cc (rw (write_delete_desire, failed, other) at h))
        ]
        | inr (out, done) ↦ rw (write_delete_desire, done) (create-ok new out w done).1
      ]

  -- If the delete command reports no error, then it has removed its own desire again: the specs table
  -- has nothing under the resource's document. This holds when the Delete of the cleanup succeeds
  -- on the apply desires, and its Delete on the read desires changes none of them.
  pub run_delete_forgets :
      (info : ResourceInfo) (name namespace : String) (w : W)
      → ((id : String) (w' : W) → (clients.specs_db.apply_desire_status.delete id w').0 ≡ none)
      → ((id id' : String) (w' : W)
          → stored (clients.specs_db.read_desire_status.delete id w').1 id' ≡ stored w' id')
      → (run_delete lib clients active info name namespace w).0 ≡ none
      → stored
          (run_delete lib clients active info name namespace w).1
          (document_of lib (resource_ref_from_gvr info namespace name))
        ≡ none
  unfolding run_delete cleanup_related_desires
  run_delete_forgets info name namespace w answers apart h =
      let ref = resource_ref_from_gvr info namespace name in
      elim (Option-cases (write_delete_desire lib clients active ref w).0) [
        | inl written ↦
            let w' = (write_delete_desire lib clients active ref w).1 in
            rw (run_delete, written)
              (apart (document_of lib ref) (document_of lib ref) _
                ∙ delete-none (document_of lib ref) w' (answers (document_of lib ref) w'))
        | inr (e, failed) ↦ absurd (cc (rw (run_delete, failed) at h))
      ]
