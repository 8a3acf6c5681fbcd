-- ===== src/Database/Informers/Tombstones.antt =====
-- The objects that the watch of an informer carries.
use rosa_hyperfleet_kube_app.Prelude.{
  String, ◌≡◌, refl, sym, ◌∙◌, ap, Option, none, some, [], ◌∷◌, lookup, insert, string_eq,
}
use rosa_hyperfleet_kube_app.Base.{ok, wrapping}
use rosa_hyperfleet_kube_app.Api.{Desire, RawExtension, set_document_id, get_document_id}
use rosa_hyperfleet_kube_app.Dynamo.Client.{member_s, Item}
use rosa_hyperfleet_kube_app.Dynamo.Adapter.{tombstone_object}
use rosa_hyperfleet_kube_app.Database.RawExtension.{
  Json, content_from_item, kube_content_read_from_item, set_spec_if, set_status_if,
}
use rosa_hyperfleet_kube_app.Database.Items.{AttributeCodec, IsCodec, item_to_desire}
use rosa_hyperfleet_kube_app.Database.Items.Assembly.{>>=-eq-ok}
use rosa_hyperfleet_kube_app.Database.Listers.{desire}
use rosa_hyperfleet_kube_app.Database.Informers.{decode_fn, desire_decoder}

module _ {T : Type 0} ⦃t : Desire T⦄ where
  metadata-contents :
      (d : T) (spec status : Option (Option RawExtension))
      → t.metadata (set_status_if (set_spec_if d spec) status) ≡ t.metadata d
  metadata-contents d none none = refl
  metadata-contents d none (some x) = t.metadata-set_status d x
  metadata-contents d (some x) none = t.metadata-set_spec d x
  metadata-contents d (some x) (some y) =
      t.metadata-set_status (t.set_spec_kube_content d x) y ∙ t.metadata-set_spec d x

module _ {V T : Type 0} ⦃t : Desire T⦄ (json : Json V) (codec : AttributeCodec T) where
  metadata-kube_content_read_from_item :
      (d d' : T) (item : Item)
      → kube_content_read_from_item json d item ≡ ok d'
      → t.metadata d' ≡ t.metadata d
  unfolding kube_content_read_from_item
  metadata-kube_content_read_from_item d d' item h =
      let (spec, e1, h1) = >>=-eq-ok (content_from_item json "spec_kubeContent" item) _ h in
      let (status, e2, h2) = >>=-eq-ok (content_from_item json "status_kubeContent" item) _ h1 in
      let same : set_status_if (set_spec_if d spec) status ≡ d' = cc in
      ap t.metadata (sym same) ∙ metadata-contents d spec status

  -- A desire that is decoded from an item with a document ID has it.
  pub item_to_desire-document_id :
      (item : Item) (id : String) (d : T)
      → lookup "documentID" item ≡ some (member_s id)
      → item_to_desire json codec item ≡ ok d
      → get_document_id d ≡ id
  unfolding item_to_desire
  item_to_desire-document_id item id d has h =
      let (obj, e1, h1) = >>=-eq-ok (wrapping "unmarshal item" (codec.unmarshal_map item)) _ h in
      let read =
        metadata-kube_content_read_from_item (set_document_id obj id) d item (rw has at h1) in
      ap (λ m. m.document_id)
        (read ∙ t.metadata-set_metadata obj (record (t.metadata obj) { document_id = id }))

  -- The zero value of a desire decodes from the map that has no attributes.
  abbrev pub HasZeroValue : Type 0
  HasZeroValue = (zero_value : T) × (codec.unmarshal_map [] ≡ ok zero_value)

  -- When no attributes decode to the zero value, the tombstone of a deleted document is a desire with
  -- its document ID: the object that only has a name, which an informer skips, is never sent.
  pub tombstone_object-desire :
      (id : String)
      → IsCodec codec
      → HasZeroValue
      → (d : T) × (tombstone_object (desire_decoder json codec) id ≡ desire d)
        × (get_document_id d ≡ id)
  unfolding tombstone_object decode_fn item_to_desire insert lookup
  tombstone_object-desire id law (zero_value, empty) =
      let unmarshal : codec.unmarshal_map (("documentID", member_s id) ∷ []) ≡ ok zero_value =
        law.unmarshal-insert [] "documentID" (member_s id) refl ∙ empty in
      (
        set_document_id zero_value id,
        rw unmarshal refl,
        ap (λ m. m.document_id)
            (t.metadata-set_metadata zero_value
              (record (t.metadata zero_value) { document_id = id })),
      )
