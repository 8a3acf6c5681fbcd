-- ===== src/Database/Crud/Writes.antt =====
-- The conditional write at the end of Create and of Replace.
use rosa_hyperfleet_kube_app.Prelude.{
  ℕ, String, ◌≡◌, ◌≢◌, refl, ◌∙◌, inl, inr, ◌↔◌, true, false, ◌&&◌, Option, none, some, lookup,
  if◌then◌else◌, ◌==◌, string_eq, nat_eq, arith, ◌%◌, ◌^◌, Bool-cases,
}
use rosa_hyperfleet_kube_app.Base.{GoError, ok, err, is_conditional_check_failed}
use rosa_hyperfleet_kube_app.Api.{Desire, get_document_id, get_version}
use rosa_hyperfleet_kube_app.Dynamo.Client.{
  IsAvailable, Item, AttributeValue, member_s, member_n, WriteCondition, version_is, holds,
}
use rosa_hyperfleet_kube_app.Database.Items.{item_to_desire, desire_to_item}
use rosa_hyperfleet_kube_app.Database.Items.Assembly.{
  desire_to_item-inv, assemble_attributes, item_to_desire-assemble, restored,
}
use rosa_hyperfleet_kube_app.Database.Crud.{
  Backend, IsBackend, next_version, put_error, put_result, put_desire,
}

abbrev pub version_attribute : Option AttributeValue → Option ℕ
version_attribute (some (member_n v)) = some v
version_attribute _ = none

-- The version of a stored item.
abbrev pub item_version : Option Item → Option ℕ
item_version none = none
item_version (some i) = version_attribute (lookup "version" i)

pub next_version-ne : (v : ℕ) → v % 2 ^ 64 ≡ v → next_version v ≢ v
next_version-ne v h e = omega arith

-- The condition on the version holds exactly of an item of that version.
pub holds_version :
    (v : ℕ) (o : Option Item) → (holds (version_is v) o ≡ true) ↔ (item_version o ≡ some v)
holds_version v none = ((λ h. cc), (λ h. cc))
holds_version v (some i) = ground arith

module _ {T : Type 0} ⦃t : Desire T⦄ where
  metadata-restored : (d : T) (o1 o2 : Option String) → t.metadata (restored d o1 o2) ≡ t.metadata d
  metadata-restored d none none = simp (t.metadata-set_metadata, t.metadata-tagged_part)
  metadata-restored d none (some u) =
      simp (t.metadata-set_status, t.metadata-set_metadata, t.metadata-tagged_part)
  metadata-restored d (some u) none =
      simp (t.metadata-set_spec, t.metadata-set_metadata, t.metadata-tagged_part)
  metadata-restored d (some u) (some v) =
      simp (
        t.metadata-set_status, t.metadata-set_spec, t.metadata-set_metadata, t.metadata-tagged_part,
      )

module _ {W V T : Type 0} ⦃t : Desire T⦄ (b : Backend W V T) (law : IsBackend b)
    (table : String) where
  -- A desire that could be stored has its key and its version in its item, and reads back.
  pub stored_item :
      (d : T) (item : Item)
      → desire_to_item b.json b.codec d ≡ ok item
      → (lookup "documentID" item ≡ some (member_s (get_document_id d)))
        × (item_version (some item) ≡ some (get_version d))
        × ((r : T) × (item_to_desire b.json b.codec item ≡ ok r) × (t.metadata r ≡ t.metadata d))
  stored_item d item h =
      let (m, o1, o2, em, e1, e2, e) = desire_to_item-inv b.json b.codec d item h in
      let attrs =
        assemble_attributes m (get_document_id d) o1 o2
          (law.codec_law.marshal-extra d m _ em refl, law.codec_law.marshal-extra d m _ em refl) in
      rw (← e) (
        attrs.0,
        rw (attrs.1, law.codec_law.marshal-version d m em),
        (
          restored d o1 o2,
          item_to_desire-assemble b.json law.json_law b.codec law.codec_law d m o1 o2 em e1 e2,
          metadata-restored d o1 o2,
        ),
      )

  put_desire-put_item :
      (conflict : GoError) (verb : String) (cond : WriteCondition) (d : T) (item : Item) (w : W)
      → desire_to_item b.json b.codec d ≡ ok item
      → put_desire b table conflict verb cond d w ≡ (
        put_result b table conflict verb d (b.client.put_item table item cond w).0,
        (b.client.put_item table item cond w).1,
      )
  unfolding put_desire
  put_desire-put_item conflict verb cond d item w h = rw (h, put_desire)

  module _ (available : IsAvailable b.client) where
    open law use {dynamo}

    -- A write whose condition holds is stored, under its key only.
    put_desire_stored :
        (conflict : GoError) (verb : String) (cond : WriteCondition) (d : T) (item : Item) (w : W)
        → desire_to_item b.json b.codec d ≡ ok item
        → holds cond (dynamo.item_at w table (get_document_id d)) ≡ true
        → ((put_desire b table conflict verb cond d w).0 ≡ ok d)
          × ((t' id' : String)
              → dynamo.item_at (put_desire b table conflict verb cond d w).1 t' id' ≡ (
                  if (table == t') && (get_document_id d == id')
                  then some item
                  else dynamo.item_at w t' id'))
    unfolding put_result
    put_desire_stored conflict verb cond d item w e h =
        elim (available.put_item_answers w table item cond) [
          | inl done ↦ rw (put_desire-put_item conflict verb cond d item w e) (
            rw (done, put_result) refl,
            λ t' id'.
                dynamo.put_item-item_at w table _ item cond tt t' id' (stored_item d item e).0 done,
          )
          | inr (msg, rejected) ↦ absurd (
              cc (
                h,
                (dynamo.put_item-rejected w table _ item cond msg table "" (stored_item d item e).0
                    rejected).0,
              ))
        ]

    -- A write whose condition fails reports the conflict, and changes nothing.
    put_desire_rejected :
        (conflict : GoError) (verb : String) (cond : WriteCondition) (d : T) (item : Item) (w : W)
        → desire_to_item b.json b.codec d ≡ ok item
        → holds cond (dynamo.item_at w table (get_document_id d)) ≡ false
        → ((put_desire b table conflict verb cond d w).0 ≡ err conflict)
          × ((t' id' : String)
              → dynamo.item_at (put_desire b table conflict verb cond d w).1 t' id'
                ≡ dynamo.item_at w t' id')
    unfolding put_result put_error is_conditional_check_failed
    put_desire_rejected conflict verb cond d item w e h =
        elim (available.put_item_answers w table item cond) [
          | inl done ↦
              absurd
                (cc (h, dynamo.put_item-holds w table _ item cond tt (stored_item d item e).0 done))
          | inr (msg, rejected) ↦ rw (put_desire-put_item conflict verb cond d item w e) (
            rw (rejected, put_result) refl,
            λ t' id'.
                (dynamo.put_item-rejected w table _ item cond msg t' id' (stored_item d item e).0
                  rejected).1,
          )
        ]

    -- Both at once, after a step of the world that changed no table.
    pub put_desire_cas :
        (conflict : GoError) (verb : String) (cond : WriteCondition) (d : T) (id : String)
        (item : Item) (w w' : W)
        → desire_to_item b.json b.codec d ≡ ok item
        → get_document_id d ≡ id
        → ((t' id' : String) → dynamo.item_at w' t' id' ≡ dynamo.item_at w t' id')
        → ((put_desire b table conflict verb cond d w').0
            ≡ (if holds cond (dynamo.item_at w table id) then ok d else err conflict))
          × ((t' id' : String)
              → dynamo.item_at (put_desire b table conflict verb cond d w').1 t' id' ≡ (
                  if holds cond (dynamo.item_at w table id) && ((table == t') && (id == id'))
                  then some item
                  else dynamo.item_at w t' id'))
    put_desire_cas conflict verb cond d id item w w' e p same =
        elim (Bool-cases (holds cond (dynamo.item_at w table id))) [
          | inl met ↦
              let (r, f) =
                put_desire_stored conflict verb cond d item w' e (rw (p, same table id) met) in
              rw met (r, λ t' id'. f t' id' ∙ rw (p, same t' id'))
          | inr failed ↦
              let (r, f) =
                put_desire_rejected conflict verb cond d item w' e (rw (p, same table id) failed) in
              rw failed (r, λ t' id'. f t' id' ∙ same t' id')
        ]
