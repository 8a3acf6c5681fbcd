-- ===== src/Dynamo/Watcher/Mirror.antt =====
-- A consumer of the watcher's events: it keeps the last item it was given for each document, which is
-- what an informer's store does. What the events of a round leave in it.
use rosa_hyperfleet_kube_app.Prelude.{
  ℕ, String, ◌≡◌, refl, Option, none, some, List, [], ◌∷◌, ◌++◌, Assoc, lookup, insert, remove,
  IsMap, contains, Option-cases, inl, inr, lookup-insert, lookup-remove, insert-IsMap,
  if◌then◌else◌, ◌==◌, string_eq, arith, eq_iff,
}
use rosa_hyperfleet_kube_app.Dynamo.Client.{Item}
use rosa_hyperfleet_kube_app.Dynamo.Polling.{Poller, extract_document_id_and_update_time}
use rosa_hyperfleet_kube_app.Dynamo.Watcher.{
  Event, emit_items, emit_deleted, emit_fetched, stubs_of,
}

abbrev pub apply_event : Event → Assoc String Item → Assoc String Item
apply_event (doc_id, none) m = remove doc_id m
apply_event (doc_id, some item) m = insert doc_id item m

abbrev pub apply_events : List Event → Assoc String Item → Assoc String Item
apply_events [] m = m
apply_events (event ∷ events) m = apply_events events (apply_event event m)

-- The time of an item, if it has one that parses.
abbrev pub time_of : {W : Type 0} → Poller W → Option Item → Option ℕ
time_of p none = none
time_of p (some item) = elim (extract_document_id_and_update_time p item) [
  | none ↦ none
  | some (own_id, ut) ↦ some ut
]

pub apply_events-append :
    (xs ys : List Event) (m : Assoc String Item)
    → apply_events (xs ++ ys) m ≡ apply_events ys (apply_events xs m)
apply_events-append [] ys m = refl
apply_events-append (x ∷ xs) ys m = apply_events-append xs ys (apply_event x m)

lookup-apply_event :
    (k doc_id : String) (o : Option Item) (m : Assoc String Item)
    → lookup k (apply_event (doc_id, o) m) ≡ (if doc_id == k then o else lookup k m)
lookup-apply_event k doc_id none m = lookup-remove doc_id k m
lookup-apply_event k doc_id (some item) m = lookup-insert doc_id k item m

pub lookup-emit_items :
    (k : String) (ids : List String) (items m : Assoc String Item)
    → lookup k (apply_events (emit_items ids items) m)
      ≡ (if contains ids k then lookup k items else lookup k m)
lookup-emit_items k [] items m = refl
lookup-emit_items k (x ∷ ids) items m =
    let m' = apply_event (x, lookup x items) m in
    ground (
      arith,
      eq_iff x k,
      lookup-emit_items k ids items m',
      lookup-apply_event k x (lookup x items) m,
    )

pub lookup-emit_deleted :
    (k : String) (ids : List String) (m : Assoc String Item)
    → lookup k (apply_events (emit_deleted ids) m) ≡ (if contains ids k then none else lookup k m)
lookup-emit_deleted k [] m = refl
lookup-emit_deleted k (x ∷ ids) m =
    ground (arith, eq_iff x k, lookup-emit_deleted k ids (remove x m), lookup-remove x k m)

-- What a fetched document leaves: the fetched item, or, if it was not fetched, what there was.
abbrev pub or_kept : Option Item → Option Item → Option Item
or_kept none o = o
or_kept (some item) o = some item

pub lookup-emit_fetched :
    (k : String) (ids : List String) (fetched m : Assoc String Item)
    → lookup k (apply_events (emit_fetched ids fetched) m)
      ≡ (if contains ids k then or_kept (lookup k fetched) (lookup k m) else lookup k m)
lookup-emit_fetched k [] fetched m = refl
lookup-emit_fetched k (x ∷ ids) fetched m = elim (Option-cases (lookup x fetched)) [
  | inl absent ↦ rw absent (ground (arith, eq_iff x k, lookup-emit_fetched k ids fetched m, absent))
  | inr (item, found) ↦ rw found (
      ground (
        arith,
        eq_iff x k,
        lookup-emit_fetched k ids fetched (insert x item m),
        lookup-insert x k item m,
        found,
      ))
]

module _ {W : Type 0} (p : Poller W) where
  pub lookup-stubs_of :
      (k : String) (items : Assoc String Item)
      → IsMap items
      → (lookup k (stubs_of p items) ≡ time_of p (lookup k items)) × IsMap (stubs_of p items)
  unfolding stubs_of lookup
  lookup-stubs_of k [] h = (refl, tt)
  lookup-stubs_of k ((x, item) ∷ items) h =
      let (found, is_map) = lookup-stubs_of k items h.1 in
      elim (Option-cases (extract_document_id_and_update_time p item)) [
        | inl skipped ↦ rw skipped (ground (arith, eq_iff x k, found, is_map, skipped, h.0))
        | inr ((own_id, ut), kept) ↦ rw kept (
          ground (arith, eq_iff x k, found, kept, lookup-insert x k ut (stubs_of p items)),
          insert-IsMap x ut (stubs_of p items) is_map,
        )
      ]
