-- ===== src/Dynamo/Watcher.antt =====
-- seaplane-dynamo/dynamodb/watcher.go: one relist and one fast poll. The two loops call them on
-- their tickers; a round is one step, since the cache's mutex and cbMu keep the methods and the
-- callbacks apart. What OnChange is called with is the list of a round's events.
pub mod Mirror
pub mod Dated
pub mod Fetched
pub mod Loop
pub mod PollLoop
pub mod Polled
pub mod Interleaved
pub mod Sync
pub mod Window
use rosa_hyperfleet_kube_app.Prelude.{
  ℕ, zero, suc, ◌+◌, ◌-◌, String, Bool, true, false, ◌&&◌, ◌||◌, Option, none, some, List, [], ◌∷◌,
  ◌++◌, Assoc, lookup, insert, if◌then◌else◌, leb, ltb, nat_beq, string_eq,
}
use rosa_hyperfleet_kube_app.Prelude.Int.{ℤ, pos, negsuc}
use rosa_hyperfleet_kube_app.Base.{GoError, Result, ok, err, Io}
use rosa_hyperfleet_kube_app.Dynamo.Client.{Client, Item}
use rosa_hyperfleet_kube_app.Dynamo.Shard.{gsi_shard_count}
use rosa_hyperfleet_kube_app.Dynamo.Cache.{
  Cache, RelistDiff, find_changed, apply_stubs, apply_relist, effective_lookback,
}
use rosa_hyperfleet_kube_app.Dynamo.Polling.{
  Poller, TimeText, extract_document_id_and_update_time, scan_all, query_since, batch_get_items,
}

-- The durations of Options, in milliseconds, and the shard count; a zero or negative value of the
-- source is 0.
pub record Options : Type 0 where
  pub poll_interval : ℕ
  pub relist_interval : ℕ
  pub max_lookback_window : ℕ
  pub shard_count : ℕ

abbrev pub default_poll_interval : ℕ
default_poll_interval = 15000

abbrev pub default_relist_interval : ℕ
default_relist_interval = 300000

abbrev pub poll_interval_or_default : Options → ℕ
poll_interval_or_default o =
    if leb o.poll_interval 0 then default_poll_interval else o.poll_interval

abbrev pub relist_interval_or_default : Options → ℕ
relist_interval_or_default o =
    if leb o.relist_interval 0 then default_relist_interval else o.relist_interval

unfoldable pub max_lookback_window_or_default : Options → ℕ
max_lookback_window_or_default o =
    let relist = relist_interval_or_default o in
    if leb o.max_lookback_window 0 || ltb relist o.max_lookback_window
    then relist
    else o.max_lookback_window

abbrev pub watcher_shard_count : Options → ℕ
watcher_shard_count o = if leb o.shard_count 0 then gsi_shard_count else o.shard_count

-- A call of OnChange: the document, and its item or nil.
abbrev pub Event : Type 0
Event = String × Option Item

-- for _, docID := range docIDs { emit(docID, fullItems[docID]) }
abbrev pub emit_items : List String → Assoc String Item → List Event
emit_items [] items = []
emit_items (doc_id ∷ doc_ids) items = (doc_id, lookup doc_id items) ∷ emit_items doc_ids items

-- for _, docID := range deleted { emit(docID, nil) }
abbrev pub emit_deleted : List String → List Event
emit_deleted [] = []
emit_deleted (doc_id ∷ doc_ids) = (doc_id, none) ∷ emit_deleted doc_ids

-- The last loop of runFastPoll skips the documents that were not fetched.
abbrev pub emit_fetched_one : String → Option Item → List Event → List Event
emit_fetched_one doc_id none events = events
emit_fetched_one doc_id (some item) events = (doc_id, some item) ∷ events

abbrev pub emit_fetched : List String → Assoc String Item → List Event
emit_fetched [] fetched = []
emit_fetched (doc_id ∷ doc_ids) fetched =
    emit_fetched_one doc_id (lookup doc_id fetched) (emit_fetched doc_ids fetched)

-- now.Add(-lookback)
abbrev pub before : ℕ → ℤ → ℕ
before now (pos lookback) = now - lookback
before now (negsuc n) = now + suc n

-- since := now.Add(-lookback); EffectiveLookback has read the clock before, at `looked`.
unfoldable pub poll_since : Options → ℕ → ℕ → Cache → ℕ
unfolding max_lookback_window_or_default effective_lookback
poll_since o looked now c =
    before now (effective_lookback looked c (pos (max_lookback_window_or_default o)))

module _ {W : Type 0} (p : Poller W) where
  abbrev add_stub : Option (String × ℕ) → String → Assoc String ℕ → Assoc String ℕ
  add_stub none doc_id stubs = stubs
  add_stub (some (own_id, ut)) doc_id stubs = insert doc_id ut stubs

  -- for docID, item := range fullItems { …; stubs[docID] = ut }
  unfoldable pub stubs_of : Assoc String Item → Assoc String ℕ
  stubs_of [] = []
  stubs_of ((doc_id, item) ∷ items) =
      add_stub (extract_document_id_and_update_time p item) doc_id (stubs_of items)

  -- The relist's cache step and its events, from a scan that succeeded at `now`.
  unfoldable pub relist_step : ℕ → Cache → Assoc String Item → List Event × Cache
  unfolding stubs_of
  relist_step now c full_items =
      let (d, c') = apply_relist now c (stubs_of full_items) in
      (
        emit_items d.added full_items
            ++ (emit_items d.modified full_items ++ emit_deleted d.deleted),
        c',
      )

  -- The fast poll's cache step and its events, from the items fetched for the changed documents.
  unfoldable pub fetched_step : Cache → List String → Assoc String Item → List Event × Cache
  unfolding stubs_of
  fetched_step c changed fetched = (emit_fetched changed fetched, apply_stubs c (stubs_of fetched))

  module _ (table : String) where
    -- The Boolean is what runRelist returns; a scan that fails leaves the cache and emits nothing.
    unfoldable pub run_relist : ℕ → (W → ℕ) → Cache → Io W (Option (Bool × (List Event × Cache)))
    run_relist fuel now c w =
        let (r, w') = scan_all p table fuel w in
        elim r [
          | none ↦ (none, w')
          | some (err e) ↦ (some (false, ([], c)), w')
          | some (ok full_items) ↦ (some (true, relist_step (now w') c full_items), w')
        ]

    abbrev pub fetch_changed : List String → Cache → Io W (List Event × Cache)
    fetch_changed [] c w = (([], c), w)
    fetch_changed (k ∷ ks) c w =
        let (r, w') = batch_get_items p table (k ∷ ks) w in
        elim r [ err e ↦ (([], c), w') | ok fetched ↦ (fetched_step c (k ∷ ks) fetched, w') ]

    -- One tick of the fast poll by itself, with the two times of poll_since.
    unfoldable pub run_fast_poll : ℕ → Options → ℕ → ℕ → Cache → Io W (Option (List Event × Cache))
    unfolding poll_since
    run_fast_poll fuel o looked now c w =
        let (r, w') =
          query_since p table (watcher_shard_count o) fuel (poll_since o looked now c) w in
        elim r [
          | none ↦ (none, w')
          | some (err e) ↦ (some ([], c), w')
          | some (ok stubs) ↦
              let (result, w'') = fetch_changed (find_changed c stubs) c w' in (some result, w'')
        ]
