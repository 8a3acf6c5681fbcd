-- ===== src/Database/Informers/Readable.antt =====
-- Events whose items decode, as the watch of an informer passes them on.
use rosa_hyperfleet_kube_app.Prelude.{
  ℕ, ◌≤◌, String, ◌≡◌, refl, ◌∙◌, ◌⊎◌, inl, inr, Bool, true, false, ◌||◌, Option, none, some, List,
  [], ◌∷◌, ◌++◌, Assoc, lookup, length, lookup-insert, lookup-remove, string_eq, arith,
  if◌then◌else◌, ◌==◌, Option-cases, Bool-cases,
}
use rosa_hyperfleet_kube_app.Base.{Result, ok, err}
use rosa_hyperfleet_kube_app.Api.{Desire}
use rosa_hyperfleet_kube_app.Dynamo.Client.{member_s, Item}
use rosa_hyperfleet_kube_app.Dynamo.Cache.{Cache, apply_relist}
use rosa_hyperfleet_kube_app.Dynamo.Polling.{Poller}
use rosa_hyperfleet_kube_app.Dynamo.Watcher.{Event, relist_step, emit_items, emit_deleted, stubs_of}
use rosa_hyperfleet_kube_app.Dynamo.Watcher.Mirror.{apply_event, apply_events}
use rosa_hyperfleet_kube_app.Dynamo.Adapter.{watch_event, watch_events}
use rosa_hyperfleet_kube_app.Database.RawExtension.{Json}
use rosa_hyperfleet_kube_app.Database.Items.{AttributeCodec, item_to_desire}
use rosa_hyperfleet_kube_app.Database.Informers.{desire_decoder}

module _ {V T : Type 0} ⦃t : Desire T⦄ (json : Json V) (codec : AttributeCodec T) where
  -- An item under its own document ID that decodes.
  abbrev pub IsReadable : String → Item → Type 0
  IsReadable id item =
      (lookup "documentID" item ≡ some (member_s id))
      × ((d : T) × (item_to_desire json codec item ≡ ok d))

  abbrev pub decoded : Result T → Option T
  decoded (ok d) = some d
  decoded (err e) = none

  -- The desire of an item.
  abbrev pub desire_of : Option Item → Option T
  desire_of none = none
  desire_of (some item) = decoded (item_to_desire json codec item)

  abbrev pub AreReadable : List Event → Type 0
  AreReadable [] = Unit
  AreReadable ((id, none) ∷ events) = AreReadable events
  AreReadable ((id, some item) ∷ events) = IsReadable id item × AreReadable events

  -- Whether an event is about a document.
  abbrev pub touches : String → List Event → Bool
  touches key [] = false
  touches key ((id, o) ∷ events) = id == key || touches key events

  pub lookup-apply_event :
      (key id : String) (o : Option Item) (m : Assoc String Item)
      → lookup key (apply_event (id, o) m) ≡ (if id == key then o else lookup key m)
  lookup-apply_event key id none m = lookup-remove id key m
  lookup-apply_event key id (some item) m = lookup-insert id key item m

  pub AreReadable-append :
      (xs ys : List Event) → AreReadable xs → AreReadable ys → AreReadable (xs ++ ys)
  AreReadable-append [] ys hx hy = hy
  AreReadable-append ((id, none) ∷ xs) ys hx hy = AreReadable-append xs ys hx hy
  AreReadable-append ((id, some item) ∷ xs) ys hx hy = (hx.0, AreReadable-append xs ys hx.1 hy)

  -- Every item of a scan is readable.
  abbrev pub IsReadableScan : Assoc String Item → Type 0
  IsReadableScan full =
      (id : String) (item : Item) → lookup id full ≡ some item → IsReadable id item

  emit_items-AreReadable :
      (ids : List String) (full : Assoc String Item)
      → IsReadableScan full
      → AreReadable (emit_items ids full)
  emit_items-AreReadable [] full h = tt
  emit_items-AreReadable (id ∷ ids) full h = elim (Option-cases (lookup id full)) [
    | inl absent ↦ rw absent (emit_items-AreReadable ids full h)
    | inr (item, found) ↦ rw found (h id item found, emit_items-AreReadable ids full h)
  ]

  emit_deleted-AreReadable : (ids : List String) → AreReadable (emit_deleted ids)
  emit_deleted-AreReadable [] = tt
  emit_deleted-AreReadable (id ∷ ids) = emit_deleted-AreReadable ids

  pub relist_step-AreReadable :
      {W : Type 0} (p : Poller W) (now : ℕ) (c : Cache) (full : Assoc String Item)
      → IsReadableScan full
      → AreReadable (relist_step p now c full).0
  unfolding relist_step
  relist_step-AreReadable p now c full h =
      let d = (apply_relist now c (stubs_of p full)).0 in
      let emitted = emit_items d.modified full ++ emit_deleted d.deleted in
      AreReadable-append (emit_items d.added full) emitted (emit_items-AreReadable d.added full h) (
        AreReadable-append (emit_items d.modified full) (emit_deleted d.deleted)
          (emit_items-AreReadable d.modified full h) (emit_deleted-AreReadable d.deleted))

  pub untouched :
      (key : String) (events : List Event) (m : Assoc String Item)
      → touches key events ≡ false
      → lookup key (apply_events events m) ≡ lookup key m
  untouched key [] m h = refl
  untouched key ((id, o) ∷ events) m h =
      ground (arith, untouched key events (apply_event (id, o) m), lookup-apply_event key id o m)

  pub watch_events-le :
      (events : List Event)
      → length (watch_events (desire_decoder json codec) events) ≤ length events
  watch_events-le [] = omega arith
  watch_events-le (event ∷ events) =
      elim (Option-cases (watch_event (desire_decoder json codec) event)) [
        | inl skipped ↦ rw skipped (omega (arith, watch_events-le events))
        | inr (e, sent) ↦ rw sent (omega (arith, watch_events-le events))
      ]

  pub agrees_after :
      (key id : String) (o : Option Item) (m : Assoc String Item) (events : List Event)
      (old new : Option T)
      → new ≡ (if id == key then desire_of o else old)
      → (old ≡ desire_of (lookup key m)) ⊎ (touches key ((id, o) ∷ events) ≡ true)
      → (new ≡ desire_of (lookup key (apply_event (id, o) m))) ⊎ (touches key events ≡ true)
  agrees_after key id o m events old new object before = elim (Bool-cases (id == key)) [
    | inl hit ↦ inl (object ∙ rw (lookup-apply_event key id o m, hit) refl)
    | inr miss ↦ elim before [
      | inl same ↦ inl (object ∙ rw (lookup-apply_event key id o m, miss) same)
      | inr touched ↦ inr (rw miss at touched)
    ]
  ]
