-- ===== src/Tests/Informing.antt =====
-- An informer of notes, fed by the watcher of Tests/Watching.
use std.Path.{subst}
use rosa_hyperfleet_kube_app.Prelude.{
  true, String, ◌≡◌, refl, ap, inl, inr, Option, none, some, [], ◌∷◌, lookup, insert, string_eq,
  if◌then◌else◌, ◌==◌, arith, eq_iff, Bool-cases,
}
use rosa_hyperfleet_kube_app.Base.{ok}
use rosa_hyperfleet_kube_app.Api.{get_document_id}
use rosa_hyperfleet_kube_app.Dynamo.Client.{Item}
use rosa_hyperfleet_kube_app.Dynamo.Cache.{new_cache, apply_relist}
use rosa_hyperfleet_kube_app.Dynamo.Polling.{extract_document_id_and_update_time}
use rosa_hyperfleet_kube_app.Dynamo.Watcher.{relist_step}
use rosa_hyperfleet_kube_app.Dynamo.Adapter.{WatchEvent, modified, deleted, on_changes}
use rosa_hyperfleet_kube_app.Database.{item_to_desire}
use rosa_hyperfleet_kube_app.Database.Listers.{RuntimeObject, desire, partial_object_metadata}
use rosa_hyperfleet_kube_app.Database.Informers.{
  SharedInformer, IsSharedInformer, handle_all, informer_lister, desire_decoder, object_in,
}
use rosa_hyperfleet_kube_app.Database.Informers.Tombstones.{HasZeroValue}
use rosa_hyperfleet_kube_app.Database.Informers.Readable.{IsReadable, IsReadableScan}
use rosa_hyperfleet_kube_app.Database.Informers.Mirrored.{relist_step-get}
use rosa_hyperfleet_kube_app.Database.Informers.Stale.{listed_then_deleted_stays}
use rosa_hyperfleet_kube_app.Tests.Memory.{
  Note, note_desire, note_codec, note-IsCodec, text_json, unmarshal_note,
}
use rosa_hyperfleet_kube_app.Tests.Watching.{
  poller, old_cache, old_items, full_items, old-IsSynced, full_IsMap, full_IsDated, item_with,
}

-- A store as the function from keys to notes.
abbrev Notes : Type 0
Notes = String → Option Note

abbrev stored_object : Option Note → Option (RuntimeObject Note)
stored_object none = none
stored_object (some d) = some (desire d)

abbrev handled : Notes → WatchEvent (RuntimeObject Note) → Notes
handled s (modified (desire d)) key = if get_document_id d == key then some d else s key
handled s (deleted (desire d)) key = if get_document_id d == key then none else s key
handled s (modified (partial_object_metadata name)) key = s key
handled s (deleted (partial_object_metadata name)) key = s key

abbrev notes_informer : SharedInformer Notes Note
notes_informer = record {
  indexer = record { list = λ s. []; get_by_key = λ s key. ok (stored_object (s key)) };
  replace = λ s ds. object_in ds;
  handle = handled;
}

stored_object_lem :
    (o : Option Note) → stored_object o ≡ (elim o [ none ↦ none | some d ↦ some (desire d) ])
stored_object_lem none = refl
stored_object_lem (some d) = refl

abbrev notes_law : IsSharedInformer notes_informer
notes_law = record {
  object_at = λ s key. s key;
  get_by_key-object_at = λ s key. ap ok (stored_object_lem (s key));
  object_at-replace = λ s ds key. refl;
  object_at-modified = λ s d key. refl;
  object_at-deleted = λ s d key. refl;
  object_at-skipped = λ s name key. refl;
}

note_zero : HasZeroValue text_json note_codec
note_zero = (unmarshal_note [], refl)

abbrev note_named : String → Note
note_named id = record {
  metadata = record { document_id = id; version = 0; update_time = 0; create_time = 0 };
  content = none;
  label = "";
}

item_with-IsReadable : (id t : String) → IsReadable text_json note_codec id (item_with id t)
unfolding lookup item_to_desire
item_with-IsReadable id t = (refl, (note_named id, refl))

note-IsReadable :
    (x id t : String) (item : Item)
    → (x == id) ≡ true
    → some (item_with x t) ≡ some item
    → IsReadable text_json note_codec id item
note-IsReadable x id t item same found =
    let key : x ≡ id = (eq_iff x id).0 same in
    let scanned : item_with x t ≡ item = cc found in
    subst (λ i. IsReadable text_json note_codec id i) scanned
      (subst (λ k. IsReadable text_json note_codec k (item_with x t)) key
        (item_with-IsReadable x t))

full_IsReadable : IsReadableScan text_json note_codec full_items
unfolding lookup
full_IsReadable id item found = elim (Bool-cases ("a" == id)) [
  | inl first ↦ note-IsReadable "a" id "x" item first (rw first at found)
  | inr later ↦ elim (Bool-cases ("b" == id)) [
    | inl second ↦ note-IsReadable "b" id "y" item second (rw (later, second) at found)
    | inr other ↦ absurd (cc (rw (later, other) at found))
  ]
]

abbrev before_relist : Notes
before_relist = handled (object_in []) (modified (desire (note_named "b")))

relist_step-get_example :
    (informer_lister notes_informer).get
      (handle_all notes_informer before_relist (
        on_changes
          (desire_decoder text_json note_codec)
          (relist_step poller 9 old_cache full_items).0
          []))
      "a"
    ≡ ok (note_named "a")
unfolding lookup relist_step item_to_desire apply_relist extract_document_id_and_update_time insert
relist_step-get_example =
    relist_step-get text_json note_codec notes_informer notes_law poller 9 old_cache full_items
      old_items before_relist "a" note-IsCodec note_zero old-IsSynced full_IsMap full_IsDated
      full_IsReadable (omega arith) (λ h. absurd (cc h)) (inr (refl, (item_with "a" "x", refl)))

-- The note "d" is listed, and gone at the first relist.
listed_then_deleted_stays_example :
    (informer_lister notes_informer).get
      (handle_all notes_informer (object_in (note_named "d" ∷ [])) (
        on_changes
          (desire_decoder text_json note_codec)
          (relist_step poller 9 new_cache full_items).0
          []))
      "d"
    ≡ ok (note_named "d")
unfolding lookup relist_step apply_relist extract_document_id_and_update_time insert
listed_then_deleted_stays_example =
    listed_then_deleted_stays text_json note_codec notes_informer notes_law poller 9 new_cache
      full_items (object_in []) (note_named "d" ∷ []) "d" (note_named "d") note-IsCodec note_zero tt
      full_IsMap full_IsReadable (omega arith) refl refl refl
