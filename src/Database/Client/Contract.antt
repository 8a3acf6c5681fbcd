-- ===== src/Database/Client/Contract.antt =====
-- What the clients of a table rely on, and that the DynamoDB-backed access gives it.
use rosa_hyperfleet_kube_app.Prelude.{
  String, ◌≡◌, refl, sym, ap, ◌∙◌, inl, inr, true, false, Option, none, some, ◌==◌, string_eq,
  eq_refl, Bool-cases,
}
use rosa_hyperfleet_kube_app.Base.{
  GoError, not_found, Result, ok, err, Result-cases, is_not_found_error, is_already_exists_error,
}
use rosa_hyperfleet_kube_app.Api.{Desire, DynamoDbMetadata, get_document_id}
use rosa_hyperfleet_kube_app.Dynamo.Client.{
  IsAvailable, Item, WriteCondition, attribute_not_exists_pk, holds,
}
use rosa_hyperfleet_kube_app.Database.Items.Assembly.{
  restored, stored_text, desire_to_item-inv, item_to_desire-assemble,
}
use rosa_hyperfleet_kube_app.Database.Crud.{
  Backend, IsBackend, put_desire, get, create, replace, delete,
}
use rosa_hyperfleet_kube_app.Database.Crud.Reads.{decoded, get-item_at}
use rosa_hyperfleet_kube_app.Database.Items.{desire_to_item}
use rosa_hyperfleet_kube_app.Database.Crud.Store.{
  created, replaced, create_if_absent, replace-ok, get-delete,
}
use rosa_hyperfleet_kube_app.Database.Client.{ResourceCrud, dynamo_crud}

-- `stored` is the contents of the table, and `content` the part of a desire that a write keeps.
pub record IsResourceCrud {W T C : Type 0} ⦃t : Desire T⦄ (crud : ResourceCrud W T)
    (content : T → C) : Type 0 where
  pub stored : W → String → Option T
  pub get-ok :
      (id : String) (w : W) (d : T)
      → (crud.get id w).0 ≡ ok d
      → (stored w id ≡ some d) × (stored (crud.get id w).1 id ≡ some d)
  pub get-not_found :
      (id : String) (w : W) (e : GoError)
      → (crud.get id w).0 ≡ err e
      → is_not_found_error (some e) ≡ true
      → (stored w id ≡ none) × (stored (crud.get id w).1 id ≡ none)
  pub create-ok :
      (d out : T) (w : W)
      → (crud.create d w).0 ≡ ok out
      → (stored w (get_document_id d) ≡ none)
        × ((d' : T) × (stored (crud.create d w).1 (get_document_id d) ≡ some d')
            × (content d' ≡ content d))
  pub create-exists :
      (d : T) (w : W) (e : GoError) (id : String)
      → (crud.create d w).0 ≡ err e
      → is_already_exists_error (some e) ≡ true
      → stored (crud.create d w).1 id ≡ stored w id
  pub replace-ok :
      (d out : T) (w : W)
      → (crud.replace d w).0 ≡ ok out
      → (d' : T) × (stored (crud.replace d w).1 (get_document_id d) ≡ some d')
        × (content d' ≡ content d)
  pub delete-none :
      (id : String) (w : W) → (crud.delete id w).0 ≡ none → stored (crud.delete id w).1 id ≡ none

module _ {W V T C : Type 0} ⦃t : Desire T⦄ (b : Backend W V T) (law : IsBackend b)
    (available : IsAvailable b.client) (table : String) (content : T → C)
    (content-restored : (d : T) (o1 o2 : Option String)
      → stored_text b.json (t.get_spec_kube_content d) ≡ ok o1
      → stored_text b.json (t.get_status_kube_content d) ≡ ok o2
      → content (restored d o1 o2) ≡ content d)
    (content-set_metadata : (d : T) (m : DynamoDbMetadata)
      → content (t.set_metadata d m) ≡ content d) where
  open law use {dynamo}

  abbrev to_option : Result T → Option T
  to_option (ok d) = some d
  to_option (err e) = none

  -- What the table has under an ID, if it can be decoded.
  abbrev table_stored : W → String → Option T
  table_stored w id = to_option (decoded b table (dynamo.item_at w table id))

  get-item_at_same :
      (id : String) (w : W) (id' : String)
      → dynamo.item_at (get b table id w).1 table id' ≡ dynamo.item_at w table id'
  unfolding get
  get-item_at_same id w id' = dynamo.get_item-item_at w table id table id'

  get_stores :
      (id : String) (w : W) (r : Result T)
      → (get b table id w).0 ≡ r
      → (table_stored w id ≡ to_option r) × (table_stored (get b table id w).1 id ≡ to_option r)
  get_stores id w r h =
      let here = ap to_option (sym (get-item_at b law available table id w) ∙ h) in
      (here, ap (λ o. to_option (decoded b table o)) (get-item_at_same id w id) ∙ here)

  stored_content :
      (d : T) (item : Item)
      → desire_to_item b.json b.codec d ≡ ok item
      → (d' : T) × (to_option (decoded b table (some item)) ≡ some d') × (content d' ≡ content d)
  stored_content d item h =
      let (m, o1, o2, em, e1, e2, e) = desire_to_item-inv b.json b.codec d item h in
      (
        restored d o1 o2,
        rw (← e) (
            ap to_option (
              item_to_desire-assemble b.json law.json_law b.codec law.codec_law d m o1 o2 em e1
                e2)),
        content-restored d o1 o2 e1 e2,
      )

  put_desire-item :
      (conflict : GoError) (verb : String) (cond : WriteCondition) (d out : T) (w : W)
      → (put_desire b table conflict verb cond d w).0 ≡ ok out
      → (item : Item) × (desire_to_item b.json b.codec d ≡ ok item)
  unfolding put_desire
  put_desire-item conflict verb cond d out w h =
      elim (Result-cases (desire_to_item b.json b.codec d)) [
        | inl (e, failed) ↦ absurd (cc (rw (put_desire, failed) at h))
        | inr (item, encoded) ↦ (item, encoded)
      ]

  create-item :
      (d out : T) (w : W)
      → (create b table d w).0 ≡ ok out
      → ((get_document_id d == "") ≡ false)
        × ((item : Item) × (desire_to_item b.json b.codec (created (b.now w).0 d) ≡ ok item))
  unfolding create
  create-item d out w h = elim (Bool-cases (get_document_id d == "")) [
    | inl empty ↦ absurd (cc (rw (create, empty) at h))
    | inr named ↦ (named, put_desire-item _ _ _ _ out _ (rw (create, named) at h))
  ]

  holds_absent : (o : Option Item) → holds attribute_not_exists_pk o ≡ true → o ≡ none
  holds_absent none h = refl
  holds_absent (some i) h = absurd (cc h)

  create_stores :
      (d out : T) (w : W)
      → (create b table d w).0 ≡ ok out
      → (table_stored w (get_document_id d) ≡ none)
        × ((d' : T) × (table_stored (create b table d w).1 (get_document_id d) ≡ some d')
            × (content d' ≡ content d))
  create_stores d out w h =
      let (named, (item, encoded)) = create-item d out w h in
      let (r, f) = create_if_absent b law available table d w item named encoded in
      let (d', found, same) = stored_content (created (b.now w).0 d) item encoded in
      elim (Bool-cases
        (holds attribute_not_exists_pk (dynamo.item_at w table (get_document_id d)))) [
          | inl absent ↦
              let after : dynamo.item_at (create b table d w).1 table (get_document_id d)
                  ≡ some item =
                f table (get_document_id d)
                ∙ rw (absent, eq_refl table, eq_refl (get_document_id d)) refl in
              (
                ap (λ o. to_option (decoded b table o)) (holds_absent _ absent),
                (
                  d',
                  ap (λ o. to_option (decoded b table o)) after ∙ found,
                  same ∙ content-set_metadata d _,
                ),
              )
          | inr there ↦ absurd (cc (rw there at r, h))
        ]

  replace_stores :
      (d out : T) (w : W)
      → (replace b table d w).0 ≡ ok out
      → (d' : T) × (table_stored (replace b table d w).1 (get_document_id d) ≡ some d')
        × (content d' ≡ content d)
  unfolding replace
  replace_stores d out w h =
      let (item, encoded) = put_desire-item _ _ _ _ out _ h in
      let (same_out, at) = replace-ok b law available table d out w item encoded h in
      let (d', found, same) = stored_content (replaced (b.now w).0 d) item encoded in
      (d', ap (λ o. to_option (decoded b table o)) at ∙ found, same ∙ content-set_metadata d _)

  create_rejects :
      (d : T) (w : W) (e : GoError) (id : String)
      → (create b table d w).0 ≡ err e
      → table_stored (create b table d w).1 id ≡ table_stored w id
  unfolding create put_desire
  create_rejects d w e id h = elim (Bool-cases (get_document_id d == "")) [
    | inl empty ↦ rw (create, empty) refl
    | inr named ↦ elim (Result-cases (desire_to_item b.json b.codec (created (b.now w).0 d))) [
      | inl (e', failed) ↦
          rw (create, named, put_desire, failed)
            (ap (λ o. to_option (decoded b table o)) (law.item_at-now w table id))
      | inr (item, encoded) ↦
          let (r, f) = create_if_absent b law available table d w item named encoded in
          elim (Bool-cases
            (holds attribute_not_exists_pk (dynamo.item_at w table (get_document_id d)))) [
              | inl absent ↦ absurd (cc (rw absent at r, h))
              | inr there ↦ ap (λ o. to_option (decoded b table o)) (f table id ∙ rw there refl)
            ]
    ]
  ]

  -- While the service answers, the DynamoDB-backed access to a table is the table that its clients rely
  -- on. A Get returns what is stored, or ErrNotFound if nothing is; a Create that succeeds found
  -- nothing and stores the desire; one that reports ErrAlreadyExists changes nothing; a Replace
  -- that succeeds stores the desire; and a Delete that succeeds leaves nothing. Of a stored desire
  -- this is said for a part that is no metadata and that the stored texts of its JSON content keep.
  pub dynamo_crud-IsResourceCrud : IsResourceCrud (dynamo_crud b table) content
  unfolding dynamo_crud
  dynamo_crud-IsResourceCrud = record {
    stored = table_stored;
    get-ok = λ id w d h. get_stores id w (ok d) h;
    get-not_found = λ id w e h missing. get_stores id w (err e) h;
    create-ok = create_stores;
    create-exists = λ d w e id h exists. create_rejects d w e id h;
    replace-ok = replace_stores;
    delete-none = λ id w h.
        (get_stores id (delete b table id w).1 (err not_found)
          (get-delete b law available table id w h).0).0;
  }
