-- ===== src/Database/Items.antt =====
-- itemToDesire and desireToItem of internal/database/crud.go. The attributevalue package of the AWS
-- SDK is a parameter: MarshalMap and UnmarshalMap at a desire type.
pub mod Assembly
use rosa_hyperfleet_kube_app.Prelude.{
  String, ◌≡◌, Bool, true, ◌||◌, Option, none, some, [], ◌∷◌, insert, lookup, ◌==◌, string_eq,
}
use rosa_hyperfleet_kube_app.Base.{Result, ok, ◌>>=◌, wrapping}
use rosa_hyperfleet_kube_app.Api.{Desire, set_document_id, get_document_id}
use rosa_hyperfleet_kube_app.Dynamo.Client.{
  AttributeValue, member_s, member_n, Item, attribute_document_id,
}
use rosa_hyperfleet_kube_app.Dynamo.Shard.{compute_shard_default}
use rosa_hyperfleet_kube_app.Database.RawExtension.{
  Json, kube_content_attribute_values, kube_content_read_from_item,
}

pub record AttributeCodec (T : Type 0) : Type 0 where
  pub marshal_map : T → Result Item
  pub unmarshal_map : Item → Result T

-- The attributes that no field of a desire has.
abbrev pub is_extra : String → Bool
is_extra k =
    (k == "documentID")
    || ((k == "shard") || ((k == "spec_kubeContent") || (k == "status_kubeContent")))

-- The documented behaviour of the codec on a desire type.
pub record IsCodec {T : Type 0} ⦃t : Desire T⦄ (c : AttributeCodec T) : Type 0 where
  -- the field `version` is stored as a number
  pub marshal-version :
      (d : T) (m : Item)
      → c.marshal_map d ≡ ok m
      → lookup "version" m ≡ some (member_n (t.metadata d).version)
  -- only the fields of the struct become attributes
  pub marshal-extra :
      (d : T) (m : Item) (k : String)
      → c.marshal_map d ≡ ok m
      → is_extra k ≡ true
      → lookup k m ≡ none
  -- what no field is named after is ignored
  pub unmarshal-insert :
      (m : Item) (k : String) (v : AttributeValue)
      → is_extra k ≡ true
      → c.unmarshal_map (insert k v m) ≡ c.unmarshal_map m
  -- fields tagged "-" are lost, the others come back
  pub unmarshal-marshal :
      (d : T) (m : Item) → c.marshal_map d ≡ ok m → c.unmarshal_map m ≡ ok (t.tagged_part d)

-- for k, v := range kubeAttrs { item[k] = v }
merge : Item → Item → Item
merge item [] = item
merge item ((k, v) ∷ attrs) = merge (insert k v item) attrs

module _ {T : Type 0} ⦃t : Desire T⦄ where
  -- A documentID that is no text is left out, as is a missing one.
  abbrev with_document_id : T → Option AttributeValue → T
  with_document_id obj (some (member_s id)) = set_document_id obj id
  with_document_id obj _ = obj

module _ {V T : Type 0} ⦃t : Desire T⦄ (json : Json V) (codec : AttributeCodec T) where
  unfoldable pub item_to_desire : Item → Result T
  unfolding kube_content_read_from_item
  item_to_desire item = do
    obj ← wrapping "unmarshal item" (codec.unmarshal_map item)
    kube_content_read_from_item json (with_document_id obj (lookup attribute_document_id item)) item

  unfoldable pub desire_to_item : T → Result Item
  unfolding merge kube_content_attribute_values
  desire_to_item d = do
    item ← wrapping "marshal item" (codec.marshal_map d)
    let item' = insert attribute_document_id (member_s (get_document_id d)) item
    let item'' = insert "shard" (member_s (compute_shard_default (get_document_id d))) item'
    kube_attrs ← kube_content_attribute_values json d
    ok (merge item'' kube_attrs)
