-- ===== src/Database/Informers/Stale.antt =====
-- A desire that is deleted between the informer's list and the watcher's first relist.
use rosa_hyperfleet_kube_app.Prelude.{
  ℕ, ◌≤◌, String, ◌≡◌, refl, ◌∙◌, ap, false, ◌||◌, none, some, List, [], ◌∷◌, ◌++◌, Assoc, lookup,
  IsMap, contains, length, string_eq, arith,
}
use rosa_hyperfleet_kube_app.Base.{ok}
use rosa_hyperfleet_kube_app.Api.{Desire}
use rosa_hyperfleet_kube_app.Dynamo.Client.{Item}
use rosa_hyperfleet_kube_app.Dynamo.Cache.{Cache, apply_relist}
use rosa_hyperfleet_kube_app.Dynamo.Cache.Relist.{apply_relist_exact}
use rosa_hyperfleet_kube_app.Dynamo.Polling.{Poller}
use rosa_hyperfleet_kube_app.Dynamo.Watcher.{Event, relist_step, emit_items, emit_deleted, stubs_of}
use rosa_hyperfleet_kube_app.Dynamo.Watcher.Mirror.{lookup-stubs_of}
use rosa_hyperfleet_kube_app.Dynamo.Adapter.{watch_events, on_changes, channel_capacity}
use rosa_hyperfleet_kube_app.Dynamo.Adapter.Capacity.{on_changes-fits}
use rosa_hyperfleet_kube_app.Database.RawExtension.{Json}
use rosa_hyperfleet_kube_app.Database.Items.{AttributeCodec, IsCodec}
use rosa_hyperfleet_kube_app.Database.Listers.{get_by_key, new_desire_lister}
use rosa_hyperfleet_kube_app.Database.Informers.{
  desire_decoder, SharedInformer, IsSharedInformer, handle_all, informer_lister, object_in,
}
use rosa_hyperfleet_kube_app.Database.Informers.Tombstones.{HasZeroValue}
use rosa_hyperfleet_kube_app.Database.Informers.Readable.{
  IsReadableScan, AreReadable, touches, watch_events-le, relist_step-AreReadable,
}
use rosa_hyperfleet_kube_app.Database.Informers.Mirrored.{handles_modified, handles_deleted}

module _ {V T : Type 0} ⦃t : Desire T⦄ (json : Json V) (codec : AttributeCodec T) where
  touches-append :
      (key : String) (xs ys : List Event)
      → touches json codec key (xs ++ ys) ≡ (touches json codec key xs || touches json codec key ys)
  touches-append key [] ys = refl
  touches-append key ((id, o) ∷ xs) ys = ground (arith, touches-append key xs ys)

  touches-emit_items :
      (key : String) (ids : List String) (full : Assoc String Item)
      → touches json codec key (emit_items ids full) ≡ contains ids key
  touches-emit_items key [] full = refl
  touches-emit_items key (id ∷ ids) full = ground (arith, touches-emit_items key ids full)

  touches-emit_deleted :
      (key : String) (ids : List String)
      → touches json codec key (emit_deleted ids) ≡ contains ids key
  touches-emit_deleted key [] = refl
  touches-emit_deleted key (id ∷ ids) = ground (arith, touches-emit_deleted key ids)

  -- A relist has no event for a document that neither the cache nor the scan has.
  relist_step-unknown :
      {W : Type 0} (p : Poller W) (now : ℕ) (c : Cache) (full : Assoc String Item) (key : String)
      → IsMap c.items
      → IsMap full
      → lookup key c.items ≡ none
      → lookup key full ≡ none
      → touches json codec key (relist_step p now c full).0 ≡ false
  unfolding relist_step
  relist_step-unknown p now c full key hc hf unknown gone =
      let d = (apply_relist now c (stubs_of p full)).0 in
      let (found, stubs_map) = lookup-stubs_of p key full hf in
      let exact = apply_relist_exact c (stubs_of p full) now key hc stubs_map in
      let stub : lookup key (stubs_of p full) ≡ none = found ∙ rw gone refl in
      ground (
        arith,
        touches-append key (emit_items d.added full)
            (emit_items d.modified full ++ emit_deleted d.deleted),
        touches-append key (emit_items d.modified full) (emit_deleted d.deleted),
        touches-emit_items key d.added full,
        touches-emit_items key d.modified full,
        touches-emit_deleted key d.deleted,
        exact,
        stub,
      )

  module _ {S : Type 0} (i : SharedInformer S T) (law : IsSharedInformer i) where
    handle_all-untouched :
        (events : List Event) (s : S) (key : String)
        → IsCodec codec
        → HasZeroValue json codec
        → AreReadable json codec events
        → touches json codec key events ≡ false
        → law.object_at (handle_all i s (watch_events (desire_decoder json codec) events)) key
          ≡ law.object_at s key
    handle_all-untouched [] s key codec_law zero_value readable miss = refl
    handle_all-untouched ((id, none) ∷ events) s key codec_law zero_value readable miss =
        let (s', handled, object) =
          handles_deleted json codec i law s key id events codec_law zero_value in
        ap (λ u. law.object_at u key) handled
        ∙ ground (arith, object, handle_all-untouched events s' key codec_law zero_value readable)
    handle_all-untouched ((id, some item) ∷ events) s key codec_law zero_value readable miss =
        let (s', handled, object) =
          handles_modified json codec i law s key id item events readable.0 in
        ap (λ u. law.object_at u key) handled
        ∙ ground (arith, object, handle_all-untouched events s' key codec_law zero_value readable.1)

    -- A desire that the informer listed, and that is gone when the watcher scans the table, stays in the
    -- lister after the relist if the watcher's cache never had it, as with the first relist of a
    -- new watcher: the relist emits no deletion for it. The scan has each document once and under
    -- its own document ID, each decodes, and the events fit into the empty channel.
    pub listed_then_deleted_stays :
        {W : Type 0} (p : Poller W) (now : ℕ) (c : Cache) (full : Assoc String Item) (s : S)
        (listed : List T) (key : String) (d : T)
        → IsCodec codec
        → HasZeroValue json codec
        → IsMap c.items
        → IsMap full
        → IsReadableScan json codec full
        → length (relist_step p now c full).0 ≤ channel_capacity
        → object_in listed key ≡ some d
        → lookup key c.items ≡ none
        → lookup key full ≡ none
        → (informer_lister i).get
            (handle_all i
              (i.replace s listed)
              (on_changes (desire_decoder json codec) (relist_step p now c full).0 []))
            key
          ≡ ok d
    unfolding new_desire_lister get_by_key
    listed_then_deleted_stays p now c full s listed key d codec_law zero_value hc hf readable fits
          was unknown gone =
        let events = (relist_step p now c full).0 in
        let sent =
          on_changes-fits (desire_decoder json codec) events []
            (omega (arith, watch_events-le json codec events)) in
        let kept =
          handle_all-untouched events (i.replace s listed) key codec_law zero_value
            (relist_step-AreReadable json codec p now c full readable)
            (relist_step-unknown p now c full key hc hf unknown gone)
          ∙ law.object_at-replace s listed key
          ∙ was in
        rw sent (rw (law.get_by_key-object_at _ key, kept) refl)
