-- ===== src/Desirectl/Applying/Written.antt =====
-- What the apply command leaves in the specs table.
use rosa_hyperfleet_kube_app.Prelude.{
  String, ◌≡◌, refl, sym, ap, ◌∙◌, inl, inr, Option, none, some, Bool-cases,
}
use rosa_hyperfleet_kube_app.Base.{Result, ok, err, Result-cases, is_already_exists_error}
use rosa_hyperfleet_kube_app.Api.{ApplyDesire, ResourceReference, apply_desire}
use rosa_hyperfleet_kube_app.Database.Client.Contract.{IsResourceCrud}
use rosa_hyperfleet_kube_app.Desirectl.Config.{Context}
use rosa_hyperfleet_kube_app.Desirectl.Desires.{
  ClientPair, Libraries, document_of, resource_ref_from_manifest,
}
use rosa_hyperfleet_kube_app.Desirectl.Applying.{
  with_manifest, new_apply_desire, acted, display_name, update_existing, create_or_update,
  apply_manifest,
}

-- What a desire becomes by a manifest; its type stays, and is empty where there was none.
abbrev pub manifest_desire :
    Context → ResourceReference → String → String → Option ApplyDesire → ApplyDesire
manifest_desire active ref raw doc_id none = new_apply_desire active ref raw doc_id
manifest_desire active ref raw doc_id (some d) = record d {
  spec = with_manifest active ref raw d.spec;
}

module _ {W J C : Type 0} (lib : Libraries J) (clients : ClientPair W) (active : Context)
    (content : ApplyDesire → C)
    (law : IsResourceCrud clients.specs_db.apply_desire_status content) where
  open law use {stored, get-ok, create-ok, create-exists, replace-ok}

  acted-ok :
      (action verb name : String) (r : Result ApplyDesire) (line : String × String)
      → acted lib clients active action verb name r ≡ ok line
      → (out : ApplyDesire) × (r ≡ ok out)
  acted-ok action verb name (ok out) line h = (out, refl)
  acted-ok action verb name (err e) line h = absurd (cc h)

  update_existing_stores :
      (ref : ResourceReference) (raw name : String) (w : W) (line : String × String)
      → ((d : ApplyDesire)
          → stored w (document_of lib ref) ≡ some d
          → d.metadata.document_id ≡ document_of lib ref)
      → (update_existing lib clients active ref raw name w).0 ≡ ok line
      → (d : ApplyDesire) × (stored
            (update_existing lib clients active ref raw name w).1
            (document_of lib ref)
          ≡ some d)
        × (content d
            ≡ content (
                manifest_desire active ref raw
                  (document_of lib ref)
                  (stored w (document_of lib ref))))
  update_existing_stores ref raw name w line own h =
      let id = document_of lib ref in
      let w' = (clients.specs_db.apply_desire_status.get id w).1 in
      elim (Result-cases (clients.specs_db.apply_desire_status.get id w).0) [
        | inl (e, failed) ↦ absurd (cc (rw (update_existing, failed) at h))
        | inr (existing, found) ↦
            let here = (get-ok id w existing found).0 in
            let new = record existing { spec = with_manifest active ref raw existing.spec } in
            let (out, done) =
              acted-ok "configured" "updating" name _ line (rw (update_existing, found) at h) in
            let (d, at, same) = replace-ok new out w' done in
            rw (update_existing, found, here)
              (
                d,
                ap (stored (clients.specs_db.apply_desire_status.replace new w').1)
                      (sym (own existing here))
                    ∙ at,
                same,
              )
      ]

  create_or_update_stores :
      (ref : ResourceReference) (raw : String) (w : W) (line : String × String)
      → ((d : ApplyDesire)
          → stored w (document_of lib ref) ≡ some d
          → d.metadata.document_id ≡ document_of lib ref)
      → (create_or_update lib clients active ref raw w).0 ≡ ok line
      → (d : ApplyDesire) × (stored
            (create_or_update lib clients active ref raw w).1
            (document_of lib ref)
          ≡ some d)
        × (content d
            ≡ content (
                manifest_desire active ref raw
                  (document_of lib ref)
                  (stored w (document_of lib ref))))
  create_or_update_stores ref raw w line own h =
      let id = document_of lib ref in
      let new = new_apply_desire active ref raw id in
      let w' = (clients.specs_db.apply_desire_status.create new w).1 in
      elim (Result-cases (clients.specs_db.apply_desire_status.create new w).0) [
        | inl (e, failed) ↦ elim (Bool-cases (is_already_exists_error (some e))) [
          | inl exists ↦
              let same = create-exists new w e id failed exists in
              rw (create_or_update, failed, exists)
                (rw (sym same) (
                  update_existing_stores ref raw (display_name lib clients active ref) w' line
                    (λ d here. own d (sym same ∙ here))
                    (rw (create_or_update, failed, exists) at h)))
          | inr other ↦ absurd (cc (rw (create_or_update, failed, other) at h))
        ]
        | inr (out, done) ↦
            let (absent, (d, at, same)) = create-ok new out w done in
            rw (create_or_update, done, absent) (d, at, same)
      ]

  -- If the application of a manifest reports no error, then the specs table has, under the document of
  -- the resource that the manifest names, a desire with that resource, the manifest, and the
  -- context's cluster and node pool; all else is as in the desire that was there, its type too, so
  -- that a desire to delete the resource goes on to delete it; if there was none, it is Go's zero
  -- value. Of the stored desire this is said for the part that the table keeps, and what was there
  -- must be a desire of that ID.
  pub apply_manifest_stores :
      (ref : ResourceReference) (raw : String) (w : W) (line : String × String)
      → resource_ref_from_manifest lib raw ≡ ok ref
      → ((d : ApplyDesire)
          → stored w (document_of lib ref) ≡ some d
          → d.metadata.document_id ≡ document_of lib ref)
      → (apply_manifest lib clients active raw w).0 ≡ ok line
      → (d : ApplyDesire) × (stored
            (apply_manifest lib clients active raw w).1
            (document_of lib ref)
          ≡ some d)
        × (content d
            ≡ content (
                manifest_desire active ref raw
                  (document_of lib ref)
                  (stored w (document_of lib ref))))
  unfolding apply_manifest
  apply_manifest_stores ref raw w line named own h =
      rw (apply_manifest, named)
        (create_or_update_stores ref raw w line own (rw (apply_manifest, named) at h))
