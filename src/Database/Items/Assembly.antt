-- ===== src/Database/Items/Assembly.antt =====
-- What desireToItem writes, attribute by attribute, and what itemToDesire makes of it.
use rosa_hyperfleet_kube_app.Prelude.{
  String, ◌≡◌, refl, sym, ◌∙◌, inl, inr, true, false, Option, none, some, [], insert, lookup,
  lookup-insert, if◌then◌else◌, ◌==◌, string_eq, arith, eq_iff, Bool-cases,
}
use rosa_hyperfleet_kube_app.Base.{Result, ok, err, ◌>>=◌, wrapping}
use rosa_hyperfleet_kube_app.Api.{RawExtension, Desire, set_document_id, get_document_id}
use rosa_hyperfleet_kube_app.Dynamo.Client.{AttributeValue, member_s, Item}
use rosa_hyperfleet_kube_app.Dynamo.Shard.{compute_shard_default}
use rosa_hyperfleet_kube_app.Database.RawExtension.{
  Json, IsJson, raw_ext_to_string, string_to_raw_ext, content_attribute, content_from_item,
  kube_content_attribute_values, kube_content_read_from_item, set_spec_if, set_status_if,
}
use rosa_hyperfleet_kube_app.Database.Items.{
  AttributeCodec, IsCodec, is_extra, item_to_desire, merge, desire_to_item,
}

pub >>=-eq-ok {ℓ κ} :
    {T : Type ℓ} {U : Type κ} (step : Result T) (next : T → Result U) {y : U}
    → (step >>= next) ≡ ok y
    → (x : T) × (step ≡ ok x) × (next x ≡ ok y)
>>=-eq-ok (ok value) next done = (value, refl, done)
>>=-eq-ok (err problem) next done = cc

pub wrapping-eq-ok {ℓ} :
    {T : Type ℓ} (prefix : String) (step : Result T) {x : T}
    → wrapping prefix step ≡ ok x
    → step ≡ ok x
wrapping-eq-ok prefix (ok value) done = done
wrapping-eq-ok prefix (err problem) done = cc

>>=_assoc {ℓ} :
    {T U V : Type ℓ} (step : Result T) (next : T → Result U) (last : U → Result V)
    → ((step >>= next) >>= last) ≡ (step >>= λ x. next x >>= last)
>>=_assoc (ok value) next last = refl
>>=_assoc (err problem) next last = refl

-- A content attribute, if there is one.
abbrev pub with_text : String → Option String → Item → Item
with_text field none m = m
with_text field (some t) m = insert field (member_s t) m

abbrev pub contents : Option String → Option String → Item
contents o1 o2 = with_text "status_kubeContent" o2 (with_text "spec_kubeContent" o1 [])

abbrev pub assemble : Item → String → Option String → Option String → Item
assemble m id o1 o2 = with_text "status_kubeContent" o2 (
    with_text "spec_kubeContent" o1
      (insert "shard" (member_s (compute_shard_default id)) (insert "documentID" (member_s id) m)))

module _ {V : Type 0} (json : Json V) where
  -- The text that is stored for a content field: none for a nil field or an empty text.
  abbrev pub nonempty : String → Option String
  nonempty t = if t == "" then none else some t

  unfoldable pub stored_text : Option RawExtension → Result (Option String)
  stored_text none = ok none
  stored_text (some ext) = do t ← raw_ext_to_string json (some ext); ok (nonempty t)

  content_attribute-stored_text :
      (field : String) (x : Option RawExtension) (m : Item)
      → content_attribute json field x m ≡ (do o ← stored_text x; ok (with_text field o m))
  unfolding content_attribute stored_text
  content_attribute-stored_text field none m = refl
  content_attribute-stored_text field (some ext) m = ground arith

  raw_ext_to_string-valid :
      (law : IsJson json) (x : Option RawExtension) (u : String)
      → raw_ext_to_string json x ≡ ok u
      → (u == "") ≡ false
      → json.valid u ≡ true
  unfolding raw_ext_to_string
  raw_ext_to_string-valid law none u h e = ground (arith, eq_iff u "")
  raw_ext_to_string-valid law (some ext) u h e = elim (Bool-cases (ext.raw == "")) [
    | inl empty ↦ ground (arith, eq_iff u "")
    | inr full ↦ grind (arith, law.valid-marshal)
  ]

  -- A stored text reads back as itself.
  pub string_to_raw_ext-stored_text :
      (law : IsJson json) (x : Option RawExtension) (u : String)
      → stored_text x ≡ ok (some u)
      → string_to_raw_ext json u ≡ ok (some (record { raw = u }))
  unfolding stored_text string_to_raw_ext
  string_to_raw_ext-stored_text law none u h = cc
  string_to_raw_ext-stored_text law (some ext) u h =
      let (a, e, f) = >>=-eq-ok (raw_ext_to_string json (some ext)) _ h in
      ground (arith, raw_ext_to_string-valid law (some ext) u)

module _ {V T : Type 0} ⦃t : Desire T⦄ (json : Json V) (codec : AttributeCodec T) where
  attribute_values-contents :
      (d : T)
      → kube_content_attribute_values json d ≡ (do
        o1 ← stored_text json (t.get_spec_kube_content d)
        o2 ← stored_text json (t.get_status_kube_content d)
        ok (contents o1 o2))
  unfolding kube_content_attribute_values
  attribute_values-contents d = simp (content_attribute-stored_text json, >>=_assoc)

  merge-contents :
      (m : Item) (id : String) (o1 o2 : Option String)
      → merge
          (insert "shard"
            (member_s (compute_shard_default id))
            (insert "documentID" (member_s id) m))
          (contents o1 o2)
        ≡ assemble m id o1 o2
  unfolding merge insert
  merge-contents m id none none = refl
  merge-contents m id none (some b) = refl
  merge-contents m id (some a) none = refl
  merge-contents m id (some a) (some b) = refl

  desire_to_item-assemble :
      (d : T)
      → desire_to_item json codec d ≡ (do
        m ← wrapping "marshal item" (codec.marshal_map d)
        o1 ← stored_text json (t.get_spec_kube_content d)
        o2 ← stored_text json (t.get_status_kube_content d)
        ok (assemble m (get_document_id d) o1 o2))
  unfolding desire_to_item
  desire_to_item-assemble d = simp (attribute_values-contents, >>=_assoc, merge-contents)

  -- A written item, from its parts.
  pub desire_to_item-inv :
      (d : T) (item : Item)
      → desire_to_item json codec d ≡ ok item
      → (m : Item) × (o1 o2 : Option String) × (codec.marshal_map d ≡ ok m)
        × (stored_text json (t.get_spec_kube_content d) ≡ ok o1)
        × (stored_text json (t.get_status_kube_content d) ≡ ok o2)
        × (assemble m (get_document_id d) o1 o2 ≡ item)
  desire_to_item-inv d item h =
      let (m, em, h1) =
        >>=-eq-ok (wrapping "marshal item" (codec.marshal_map d)) _
          (sym (desire_to_item-assemble d) ∙ h) in
      let (o1, e1, h2) = >>=-eq-ok (stored_text json (t.get_spec_kube_content d)) _ h1 in
      let (o2, e2, h3) = >>=-eq-ok (stored_text json (t.get_status_kube_content d)) _ h2 in
      (m, o1, o2, wrapping-eq-ok "marshal item" (codec.marshal_map d) em, e1, e2, cc)

abbrev pub text_attribute : Option String → Option AttributeValue
text_attribute none = none
text_attribute (some t) = some (member_s t)

abbrev pub IsPlain : Item → Type 0
IsPlain m = (lookup "spec_kubeContent" m ≡ none) × (lookup "status_kubeContent" m ≡ none)

-- The attributes of a written item.
pub assemble_attributes :
    (m : Item) (id : String) (o1 o2 : Option String)
    → IsPlain m
    → (lookup "documentID" (assemble m id o1 o2) ≡ some (member_s id))
      × (lookup "version" (assemble m id o1 o2) ≡ lookup "version" m)
      × (lookup "spec_kubeContent" (assemble m id o1 o2) ≡ text_attribute o1)
      × (lookup "status_kubeContent" (assemble m id o1 o2) ≡ text_attribute o2)
assemble_attributes m id none none h =
    (simp lookup-insert, simp lookup-insert, simp lookup-insert h.0, simp lookup-insert h.1)
assemble_attributes m id (some t) none h =
    (simp lookup-insert, simp lookup-insert, simp lookup-insert, simp lookup-insert h.1)
assemble_attributes m id none (some u) h =
    (simp lookup-insert, simp lookup-insert, simp lookup-insert h.0, simp lookup-insert)
assemble_attributes m id (some t) (some u) h =
    (simp lookup-insert, simp lookup-insert, simp lookup-insert, simp lookup-insert)

module _ {T : Type 0} ⦃t : Desire T⦄ (codec : AttributeCodec T) (law : IsCodec codec) where
  unmarshal-with_text :
      (field : String) (o : Option String) (m : Item)
      → is_extra field ≡ true
      → codec.unmarshal_map (with_text field o m) ≡ codec.unmarshal_map m
  unmarshal-with_text field none m h = refl
  unmarshal-with_text field (some u) m h = law.unmarshal-insert m field (member_s u) h

  unmarshal-assemble :
      (m : Item) (id : String) (o1 o2 : Option String)
      → codec.unmarshal_map (assemble m id o1 o2) ≡ codec.unmarshal_map m
  unmarshal-assemble m id o1 o2 =
      unmarshal-with_text "status_kubeContent" o2 _ refl
      ∙ unmarshal-with_text "spec_kubeContent" o1 _ refl
      ∙ law.unmarshal-insert _ "shard" _ refl
      ∙ law.unmarshal-insert m "documentID" _ refl

abbrev text_content : Option String → Option (Option RawExtension)
text_content none = none
text_content (some u) = some (some (record { raw = u }))

module _ {T : Type 0} ⦃t : Desire T⦄ where
  -- What a written desire reads back as: its content fields are the normalised texts.
  abbrev pub restored : T → Option String → Option String → T
  restored d o1 o2 =
      set_status_if
        (set_spec_if (set_document_id (t.tagged_part d) (get_document_id d)) (text_content o1))
        (text_content o2)

module _ {V : Type 0} (json : Json V) (law : IsJson json) where
  content_from_item-stored :
      (field : String) (x : Option RawExtension) (o : Option String) (item : Item)
      → stored_text json x ≡ ok o
      → lookup field item ≡ text_attribute o
      → content_from_item json field item ≡ ok (text_content o)
  unfolding content_from_item
  content_from_item-stored field x none item h e = rw (e, content_from_item)
  content_from_item-stored field x (some u) item h e =
      rw (e, content_from_item) (rw (string_to_raw_ext-stored_text json law x u h))

  module _ {T : Type 0} ⦃t : Desire T⦄ (codec : AttributeCodec T) (claw : IsCodec codec) where
    pub item_to_desire-assemble :
        (d : T) (m : Item) (o1 o2 : Option String)
        → codec.marshal_map d ≡ ok m
        → stored_text json (t.get_spec_kube_content d) ≡ ok o1
        → stored_text json (t.get_status_kube_content d) ≡ ok o2
        → item_to_desire json codec (assemble m (get_document_id d) o1 o2) ≡ ok (restored d o1 o2)
    unfolding item_to_desire
    item_to_desire-assemble d m o1 o2 em e1 e2 =
        let plain : IsPlain m =
          (claw.marshal-extra d m _ em refl, claw.marshal-extra d m _ em refl) in
        let attrs = assemble_attributes m (get_document_id d) o1 o2 plain in
        rw
          (unmarshal-assemble codec claw m (get_document_id d) o1 o2, claw.unmarshal-marshal d m em)
          (rw attrs.0 (
            unfold kube_content_read_from_item in
            rw (
              content_from_item-stored _ _ o1 _ e1 attrs.2,
              content_from_item-stored _ _ o2 _ e2 attrs.3,
            )))
