-- ===== src/Database/Crud/Store.antt =====
-- The status store as its clients see it: create-if-absent, compare-and-swap on the version, and
-- reads that see the last write.
use rosa_hyperfleet_kube_app.Prelude.{
  ℕ, ◌%◌, ◌^◌, String, ◌≡◌, refl, ap, ◌∙◌, inl, inr, false, ◌&&◌, Option, none, some, if◌then◌else◌,
  ◌==◌, string_eq, arith, Bool-cases, eq_refl,
}
use rosa_hyperfleet_kube_app.Base.{not_found, precondition_failed, already_exists, Result, ok, err}
use rosa_hyperfleet_kube_app.Api.{Desire, get_document_id, get_version}
use rosa_hyperfleet_kube_app.Dynamo.Client.{
  IsAvailable, Item, attribute_not_exists_pk, version_is, holds,
}
use rosa_hyperfleet_kube_app.Database.Items.{desire_to_item}
use rosa_hyperfleet_kube_app.Database.Crud.{
  Backend, IsBackend, next_version, get, create, replace, delete, delete_result,
}
use rosa_hyperfleet_kube_app.Database.Crud.Reads.{get-item_at}
use rosa_hyperfleet_kube_app.Database.Crud.Writes.{
  next_version-ne, holds_version, item_version, stored_item, put_desire_cas,
}

-- A condition on the version that a write has replaced fails.
stale_version :
    (v v' : ℕ) (o : Option Item) (item : Item)
    → v % 2 ^ 64 ≡ v
    → v' ≡ v
    → o ≡ some item
    → item_version (some item) ≡ some (next_version v)
    → holds (version_is v') o ≡ false
stale_version v v' o item small same at now = elim (Bool-cases (holds (version_is v') o)) [
  | inl met ↦ absurd (next_version-ne v small (cc (ap item_version at, (holds_version v' o).0 met)))
  | inr failed ↦ failed
]

module _ {T : Type 0} ⦃t : Desire T⦄ where
  -- What Create stores at a time, and what Replace stores.
  abbrev pub created : ℕ → T → T
  created now obj =
      t.set_metadata obj
        (record (t.metadata obj) { version = 1; update_time = now; create_time = now })

  abbrev pub replaced : ℕ → T → T
  replaced now obj =
      t.set_metadata obj
        (record (t.metadata obj) { version = next_version (get_version obj); update_time = now })

delete_result-none :
    {W V T : Type 0} ⦃t : Desire T⦄ (b : Backend W V T) (table id : String) (r : Result (Unit {0}))
    → delete_result b table id r ≡ none
    → r ≡ ok tt
unfolding delete_result
delete_result-none b table id (ok u) h = refl
delete_result-none b table id (err e) h = cc

module _ {W V T : Type 0} ⦃t : Desire T⦄ (b : Backend W V T) (law : IsBackend b)
    (available : IsAvailable b.client) (table : String) where
  open law use {dynamo}

  -- Create of a desire with a document ID that can be encoded, while the service answers: it
  -- stores version 1 with both times now if the table has nothing under the ID, and else reports
  -- ErrAlreadyExists; nothing else in any table changes.
  pub create_if_absent :
      (obj : T) (w : W) (item : Item)
      → (get_document_id obj == "") ≡ false
      → desire_to_item b.json b.codec (created (b.now w).0 obj) ≡ ok item
      → ((create b table obj w).0 ≡ (
          if holds attribute_not_exists_pk (dynamo.item_at w table (get_document_id obj))
          then ok (created (b.now w).0 obj)
          else err already_exists))
        × ((t' id' : String)
            → dynamo.item_at (create b table obj w).1 t' id' ≡ (
                if holds attribute_not_exists_pk (dynamo.item_at w table (get_document_id obj))
                  && ((table == t') && (get_document_id obj == id'))
                then some item
                else dynamo.item_at w t' id'))
  unfolding create
  create_if_absent obj w item h e = rw h (
      put_desire_cas b law table available already_exists "Create" attribute_not_exists_pk
        (created (b.now w).0 obj) (get_document_id obj) item w (b.now w).1 e
        (ap (λ m. m.document_id) (t.metadata-set_metadata obj _)) (law.item_at-now w))

  -- Replace of a desire that can be encoded, while the service answers: it stores the next
  -- version, updated now, if the table has the ID at the desire's version, and else reports
  -- ErrPreconditionFailed; nothing else in any table changes.
  pub replace_compare_and_swap :
      (obj : T) (w : W) (item : Item)
      → desire_to_item b.json b.codec (replaced (b.now w).0 obj) ≡ ok item
      → ((replace b table obj w).0 ≡ (
          if holds (version_is (get_version obj)) (dynamo.item_at w table (get_document_id obj))
          then ok (replaced (b.now w).0 obj)
          else err precondition_failed))
        × ((t' id' : String)
            → dynamo.item_at (replace b table obj w).1 t' id' ≡ (
                if holds
                    (version_is (get_version obj))
                    (dynamo.item_at w table (get_document_id obj))
                  && ((table == t') && (get_document_id obj == id'))
                then some item
                else dynamo.item_at w t' id'))
  unfolding replace
  replace_compare_and_swap obj w item e =
      put_desire_cas b law table available precondition_failed "Replace"
        (version_is (get_version obj)) (replaced (b.now w).0 obj) (get_document_id obj) item w
        (b.now w).1 e (ap (λ m. m.document_id) (t.metadata-set_metadata obj _)) (law.item_at-now w)

  -- What a Replace that succeeded has done.
  pub replace-ok :
      (obj d : T) (w : W) (item : Item)
      → desire_to_item b.json b.codec (replaced (b.now w).0 obj) ≡ ok item
      → (replace b table obj w).0 ≡ ok d
      → (replaced (b.now w).0 obj ≡ d)
        × (dynamo.item_at (replace b table obj w).1 table (get_document_id obj) ≡ some item)
  replace-ok obj d w item e h =
      let (r, f) = replace_compare_and_swap obj w item e in
      ground (arith, f table (get_document_id obj), eq_refl table, eq_refl (get_document_id obj))

  -- After a Replace that succeeded, of a desire that can be encoded, a Get that the service
  -- answers returns a desire with the metadata that Replace returned, at the next version.
  pub get-replace :
      (obj d : T) (w : W) (item : Item)
      → desire_to_item b.json b.codec (replaced (b.now w).0 obj) ≡ ok item
      → (replace b table obj w).0 ≡ ok d
      → (r : T) × ((get b table (get_document_id obj) (replace b table obj w).1).0 ≡ ok r)
        × (t.metadata r ≡ t.metadata d)
        × (get_version r ≡ next_version (get_version obj))
  get-replace obj d w item e h =
      let (same, at) = replace-ok obj d w item e h in
      let (k, v, stored) = stored_item b law table (replaced (b.now w).0 obj) item e in
      (
        stored.0,
        get-item_at b law available table (get_document_id obj) _ ∙ rw at stored.1,
        stored.2 ∙ ap t.metadata same,
        ap (λ x. x.version) (stored.2 ∙ t.metadata-set_metadata obj _),
      )

  -- After a Create that succeeded, of a desire with a document ID that can be encoded, a Get
  -- that the service answers returns a desire with the metadata that was stored: the document ID
  -- of the argument, version 1, and both times at the time of the call.
  pub get-create :
      (obj d : T) (w : W) (item : Item)
      → (get_document_id obj == "") ≡ false
      → desire_to_item b.json b.codec (created (b.now w).0 obj) ≡ ok item
      → (create b table obj w).0 ≡ ok d
      → (r : T) × ((get b table (get_document_id obj) (create b table obj w).1).0 ≡ ok r)
        × (t.metadata r ≡ record {
          document_id = get_document_id obj;
          version = 1;
          update_time = (b.now w).0;
          create_time = (b.now w).0;
        })
  get-create obj d w item full e h =
      let (k, v, stored) = stored_item b law table (created (b.now w).0 obj) item e in
      let (r, f) = create_if_absent obj w item full e in
      let at : dynamo.item_at (create b table obj w).1 table (get_document_id obj) ≡ some item =
        ground
          (arith, f table (get_document_id obj), eq_refl table, eq_refl (get_document_id obj)) in
      (
        stored.0,
        get-item_at b law available table (get_document_id obj) _ ∙ rw at stored.1,
        stored.2 ∙ t.metadata-set_metadata obj _,
      )

  -- After a Delete that succeeded, a Get of the ID that the service answers reports ErrNotFound,
  -- and every other item of every table is as it was.
  pub get-delete :
      (id : String) (w : W)
      → (delete b table id w).0 ≡ none
      → ((get b table id (delete b table id w).1).0 ≡ err not_found)
        × ((t' id' : String)
            → dynamo.item_at (delete b table id w).1 t' id'
              ≡ (if (table == t') && (id == id') then none else dynamo.item_at w t' id'))
  unfolding delete
  get-delete id w h =
      let done : (b.client.delete_item table id w).0 ≡ ok tt = delete_result-none b table id _ h in
      let frame = λ (t' id' : String). dynamo.delete_item-item_at w table id tt t' id' done in
      let gone : dynamo.item_at (b.client.delete_item table id w).1 table id ≡ none =
        ground (arith, frame table id, eq_refl table, eq_refl id) in
      (get-item_at b law available table id _ ∙ rw gone, frame)

  -- After a Replace that succeeded, a Replace of the same document at the same version, an
  -- int64, gets ErrPreconditionFailed and changes nothing: no update is lost. Both desires can
  -- be encoded, and the service answers.
  pub replace-replace :
      (obj obj' d : T) (w : W) (item item' : Item)
      → get_document_id obj' ≡ get_document_id obj
      → get_version obj' ≡ get_version obj
      → get_version obj % 2 ^ 64 ≡ get_version obj
      → desire_to_item b.json b.codec (replaced (b.now w).0 obj) ≡ ok item
      → desire_to_item b.json b.codec (replaced (b.now (replace b table obj w).1).0 obj') ≡ ok item'
      → (replace b table obj w).0 ≡ ok d
      → ((replace b table obj' (replace b table obj w).1).0 ≡ err precondition_failed)
        × ((t' id' : String)
            → dynamo.item_at (replace b table obj' (replace b table obj w).1).1 t' id'
              ≡ dynamo.item_at (replace b table obj w).1 t' id')
  replace-replace obj obj' d w item item' same_id same_version small e e' h =
      let (same, at) = replace-ok obj d w item e h in
      let (k, v, back) = stored_item b law table (replaced (b.now w).0 obj) item e in
      let (r, f) = replace_compare_and_swap obj' (replace b table obj w).1 item' e' in
      let fails =
        stale_version (get_version obj) (get_version obj') _ _ small same_version
          (ap (dynamo.item_at (replace b table obj w).1 table) same_id ∙ at)
          (v ∙ ap (λ m. some m.version) (t.metadata-set_metadata obj _)) in
      (rw fails at r, λ t' id'. rw fails at (f t' id'))
