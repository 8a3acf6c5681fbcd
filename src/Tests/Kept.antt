-- ===== src/Tests/Kept.antt =====
-- A table of desires held in memory.
use rosa_hyperfleet_kube_app.Prelude.{
  String, ◌≡◌, refl, ◌∙◌, inl, inr, Option, none, some, [], Assoc, lookup, insert, remove,
  lookup-insert, lookup-remove, string_eq, eq_refl, Option-cases,
}
use rosa_hyperfleet_kube_app.Base.{
  GoError, Result, ok, err, not_found, already_exists, precondition_failed,
}
use rosa_hyperfleet_kube_app.Api.{Desire, get_document_id}
use rosa_hyperfleet_kube_app.Database.Client.{ResourceCrud}
use rosa_hyperfleet_kube_app.Database.Client.Contract.{IsResourceCrud}

module _ {T : Type 0} ⦃t : Desire T⦄ where
  abbrev found : Option T → Result T
  found none = err not_found
  found (some d) = ok d

  abbrev create_under : T → Option T → Assoc String T → Result T × Assoc String T
  create_under d (some old) w = (err already_exists, w)
  create_under d none w = (ok d, insert (get_document_id d) d w)

  abbrev replace_under : T → Option T → Assoc String T → Result T × Assoc String T
  replace_under d none w = (err precondition_failed, w)
  replace_under d (some old) w = (ok d, insert (get_document_id d) d w)

  abbrev pub kept_crud : ResourceCrud (Assoc String T) T
  kept_crud = record {
    get = λ id w. (found (lookup id w), w);
    list = λ w. (ok [], w);
    create = λ d w. create_under d (lookup (get_document_id d) w) w;
    replace = λ d w. replace_under d (lookup (get_document_id d) w) w;
    delete = λ id w. (none, remove id w);
  }

  pub found-ok : (o : Option T) (d : T) → found o ≡ ok d → o ≡ some d
  found-ok none d h = absurd (cc h)
  found-ok (some x) d h = cc h

  pub found-err : (o : Option T) (e : GoError) → found o ≡ err e → o ≡ none
  found-err none e h = refl
  found-err (some x) e h = absurd (cc h)

  inserted :
      (d : T) (w : Assoc String T)
      → lookup (get_document_id d) (insert (get_document_id d) d w) ≡ some d
  inserted d w =
      lookup-insert (get_document_id d) (get_document_id d) d w
      ∙ rw (eq_refl (get_document_id d)) refl

  module _ {C : Type 0} (content : T → C) where
    pub create_kept :
        (d out : T) (w : Assoc String T)
        → (kept_crud.create d w).0 ≡ ok out
        → (lookup (get_document_id d) w ≡ none)
          × ((d' : T) × (lookup (get_document_id d) (kept_crud.create d w).1 ≡ some d')
              × (content d' ≡ content d))
    create_kept d out w h = elim (Option-cases (lookup (get_document_id d) w)) [
      | inl absent ↦ rw (create_under, absent) (refl, (d, inserted d w, refl))
      | inr (old, here) ↦ absurd (cc (rw (create_under, here) at h))
    ]

    pub create_refused :
        (d : T) (w : Assoc String T) (e : GoError) (id : String)
        → (kept_crud.create d w).0 ≡ err e
        → lookup id (kept_crud.create d w).1 ≡ lookup id w
    create_refused d w e id h = elim (Option-cases (lookup (get_document_id d) w)) [
      | inl absent ↦ absurd (cc (rw (create_under, absent) at h))
      | inr (old, here) ↦ rw (create_under, here) refl
    ]

    pub replace_kept :
        (d out : T) (w : Assoc String T)
        → (kept_crud.replace d w).0 ≡ ok out
        → (d' : T) × (lookup (get_document_id d) (kept_crud.replace d w).1 ≡ some d')
          × (content d' ≡ content d)
    replace_kept d out w h = elim (Option-cases (lookup (get_document_id d) w)) [
      | inl absent ↦ absurd (cc (rw (replace_under, absent) at h))
      | inr (old, here) ↦ rw (replace_under, here) (d, inserted d w, refl)
    ]

    abbrev pub kept_law : IsResourceCrud kept_crud content
    kept_law = record {
      stored = λ w id. lookup id w;
      get-ok = λ id w d h. (found-ok (lookup id w) d h, found-ok (lookup id w) d h);
      get-not_found =
          λ id w e h missing. (found-err (lookup id w) e h, found-err (lookup id w) e h);
      create-ok = create_kept;
      create-exists = λ d w e id h exists. create_refused d w e id h;
      replace-ok = replace_kept;
      delete-none = λ id w h. lookup-remove id id w ∙ rw (eq_refl id) refl;
    }
