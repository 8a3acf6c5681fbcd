-- ===== src/Database/Informers/Mirrored.antt =====
-- What the lister of an informer serves after the watcher's rounds.
use rosa_hyperfleet_kube_app.Prelude.{
  ℕ, ◌≤◌, String, ◌≡◌, refl, ◌∙◌, ap, ◌⊎◌, inl, inr, true, Option, none, some, List, [], ◌∷◌, Assoc,
  lookup, IsMap, length, string_eq, arith, if◌then◌else◌, ◌==◌, Bool-cases,
}
use rosa_hyperfleet_kube_app.Base.{Result, ok, err, not_found}
use rosa_hyperfleet_kube_app.Api.{Desire}
use rosa_hyperfleet_kube_app.Dynamo.Client.{Item}
use rosa_hyperfleet_kube_app.Dynamo.Cache.{Cache}
use rosa_hyperfleet_kube_app.Dynamo.Polling.{Poller}
use rosa_hyperfleet_kube_app.Dynamo.Watcher.{Event, relist_step}
use rosa_hyperfleet_kube_app.Dynamo.Watcher.Mirror.{apply_event, apply_events, time_of}
use rosa_hyperfleet_kube_app.Dynamo.Watcher.Dated.{IsDated}
use rosa_hyperfleet_kube_app.Dynamo.Watcher.Sync.{IsSynced, relist_step_exact}
use rosa_hyperfleet_kube_app.Dynamo.Adapter.{
  modified, deleted, watch_event, watch_events, on_changes, channel_capacity,
}
use rosa_hyperfleet_kube_app.Dynamo.Adapter.Capacity.{on_changes-fits}
use rosa_hyperfleet_kube_app.Database.RawExtension.{Json}
use rosa_hyperfleet_kube_app.Database.Items.{AttributeCodec, IsCodec, item_to_desire}
use rosa_hyperfleet_kube_app.Database.Listers.{desire, get_by_key, new_desire_lister}
use rosa_hyperfleet_kube_app.Database.Informers.{
  decode_fn, desire_decoder, SharedInformer, IsSharedInformer, handle_all, informer_lister,
}
use rosa_hyperfleet_kube_app.Database.Informers.Tombstones.{
  item_to_desire-document_id, HasZeroValue, tombstone_object-desire,
}
use rosa_hyperfleet_kube_app.Database.Informers.Readable.{
  IsReadable, IsReadableScan, AreReadable, desire_of, touches, untouched, watch_events-le,
  agrees_after, relist_step-AreReadable,
}

module _ {V T : Type 0} ⦃t : Desire T⦄ (json : Json V) (codec : AttributeCodec T) where
  module _ {S : Type 0} (i : SharedInformer S T) (law : IsSharedInformer i) where
    -- What one readable event makes of the store.
    abbrev pub HandlesOne : S → String → String → Option Item → List Event → Type 0
    HandlesOne s key id o events =
        (s' : S) × (handle_all i s (watch_events (desire_decoder json codec) ((id, o) ∷ events))
          ≡ handle_all i s' (watch_events (desire_decoder json codec) events))
        × (law.object_at s' key
            ≡ (if id == key then desire_of json codec o else law.object_at s key))

    pub handles_modified :
        (s : S) (key id : String) (item : Item) (events : List Event)
        → IsReadable json codec id item
        → HandlesOne s key id (some item) events
    unfolding watch_event decode_fn
    handles_modified s key id item events (has, (d, decodes)) =
        let same = item_to_desire-document_id json codec item id d has decodes in
        (
          i.handle s (modified (desire d)),
          rw (decode_fn, decodes) refl,
          law.object_at-modified s d key ∙ rw (same, decodes) refl,
        )

    pub handles_deleted :
        (s : S) (key id : String) (events : List Event)
        → IsCodec codec
        → HasZeroValue json codec
        → HandlesOne s key id none events
    unfolding watch_event
    handles_deleted s key id events codec_law zero_value =
        let (d, tombstone, same) = tombstone_object-desire json codec id codec_law zero_value in
        (
          i.handle s (deleted (desire d)),
          rw tombstone refl,
          law.object_at-deleted s d key ∙ rw same refl,
        )

    -- After the events of a round the store has the desire of each document's item, if it had it before
    -- or the round is about the document.
    handle_all-mirrors :
        (events : List Event) (s : S) (m : Assoc String Item) (key : String)
        → IsCodec codec
        → HasZeroValue json codec
        → AreReadable json codec events
        → (law.object_at s key ≡ desire_of json codec (lookup key m))
          ⊎ (touches json codec key events ≡ true)
        → law.object_at (handle_all i s (watch_events (desire_decoder json codec) events)) key
          ≡ desire_of json codec (lookup key (apply_events events m))
    handle_all-mirrors [] s m key codec_law zero_value readable (inl same) = same
    handle_all-mirrors [] s m key codec_law zero_value readable (inr touched) = cc
    handle_all-mirrors ((id, none) ∷ events) s m key codec_law zero_value readable before =
        let (s', handled, object) = handles_deleted s key id events codec_law zero_value in
        ap (λ u. law.object_at u key) handled
        ∙ handle_all-mirrors events s' (apply_event (id, none) m) key codec_law zero_value readable
            (agrees_after json codec key id none m events (law.object_at s key)
              (law.object_at s' key) object before)
    handle_all-mirrors ((id, some item) ∷ events) s m key codec_law zero_value readable before =
        let (s', handled, object) = handles_modified s key id item events readable.0 in
        ap (λ u. law.object_at u key) handled
        ∙ handle_all-mirrors events s' (apply_event (id, some item) m) key codec_law zero_value
            readable.1
            (agrees_after json codec key id (some item) m events (law.object_at s key)
              (law.object_at s' key) object before)

    -- What the lister answers for a document with an item, or with none.
    abbrev pub served : Option Item → Result T
    served none = err not_found
    served (some item) = item_to_desire json codec item

    pub get-served :
        (s : S) (key : String) (o : Option Item)
        → law.object_at s key ≡ desire_of json codec o
        → ((item : Item) → o ≡ some item → (d : T) × (item_to_desire json codec item ≡ ok d))
        → (informer_lister i).get s key ≡ served o
    unfolding new_desire_lister get_by_key
    get-served s key none same readable = rw (law.get_by_key-object_at s key, same) refl
    get-served s key (some item) same readable =
        let (d, decodes) = readable item refl in
        rw (law.get_by_key-object_at s key, same, decodes) refl

    module _ {W : Type 0} (p : Poller W) (now : ℕ) (c : Cache) (full m : Assoc String Item) where
      scanned_touches :
          (s : S) (key : String)
          → lookup key (apply_events (relist_step p now c full).0 m) ≡ lookup key full
          → (law.object_at s key ≡ desire_of json codec (lookup key m))
            ⊎ ((lookup key m ≡ none) × ((item : Item) × (lookup key full ≡ some item)))
          → (law.object_at s key ≡ desire_of json codec (lookup key m))
            ⊎ (touches json codec key (relist_step p now c full).0 ≡ true)
      scanned_touches s key exact (inl same) = inl same
      scanned_touches s key exact (inr (unknown, (item, found))) =
          elim (Bool-cases (touches json codec key (relist_step p now c full).0)) [
            | inl touched ↦ inr touched
            | inr missed ↦
                absurd (cc (untouched json codec key (relist_step p now c full).0 m missed))
          ]

      -- After a relist whose events fit into the empty channel, the lister answers for a document what the
      -- scan says: the desire of the scanned item, and ErrNotFound if there is none. Before, the
      -- store had the desire of the item that the watcher's cache stands for, or the document is
      -- one that the cache did not know and that was scanned. The scan has each document once, with
      -- a time, under its own document ID, and each decodes; an item with the time of the known one
      -- is the known one.
      pub relist_step-get :
          (s : S) (key : String)
          → IsCodec codec
          → HasZeroValue json codec
          → IsSynced p c m
          → IsMap full
          → IsDated p full
          → IsReadableScan json codec full
          → length (relist_step p now c full).0 ≤ channel_capacity
          → (time_of p (lookup key m) ≡ time_of p (lookup key full)
              → lookup key m ≡ lookup key full)
          → (law.object_at s key ≡ desire_of json codec (lookup key m))
            ⊎ ((lookup key m ≡ none) × ((item : Item) × (lookup key full ≡ some item)))
          → (informer_lister i).get
              (handle_all i s
                (on_changes (desire_decoder json codec) (relist_step p now c full).0 []))
              key
            ≡ served (lookup key full)
      relist_step-get s key codec_law zero_value synced is_map dated readable fits same before =
          let events = (relist_step p now c full).0 in
          let exact = relist_step_exact p now c full m key synced is_map dated same in
          let sent =
            on_changes-fits (desire_decoder json codec) events []
              (omega (arith, watch_events-le json codec events)) in
          let mirrored =
            handle_all-mirrors events s m key codec_law zero_value
              (relist_step-AreReadable json codec p now c full readable)
              (scanned_touches s key exact before) in
          rw sent (
            get-served _ key (lookup key full) (rw exact at mirrored)
              (λ item found. (readable key item found).1))
