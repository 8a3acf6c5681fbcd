-- ===== src/Tests/Watching/Looping.antt =====
-- The loops of the watcher, over the scan of two pages.
use std.Path.{subst}
use rosa_hyperfleet_kube_app.Prelude.{
  ℕ, String, ◌≡◌, refl, ◌⊎◌, ◌++◌, true, false, contains, string_eq, some, List, [], ◌∷◌, lookup,
  insert,
}
use rosa_hyperfleet_kube_app.Base.{Result, ok}
use rosa_hyperfleet_kube_app.Dynamo.Cache.{Cache, new_cache}
use rosa_hyperfleet_kube_app.Dynamo.Polling.{
  scan_all, collect_items, extract_document_id_and_update_time,
}
use rosa_hyperfleet_kube_app.Dynamo.Watcher.{Event, relist_step, run_relist}
use rosa_hyperfleet_kube_app.Dynamo.Watcher.Mirror.{apply_events}
use rosa_hyperfleet_kube_app.Dynamo.Watcher.Sync.{IsSynced}
use rosa_hyperfleet_kube_app.Dynamo.Watcher.Fetched.{IsBatch, names}
use rosa_hyperfleet_kube_app.Dynamo.Watcher.Interleaved.{
  Loops, scanned, loops_start, relist_events, poll_events, relist_applies, relist_scans,
  relist_changes, Reach, begin, later, Reach-IsSynced,
}
use rosa_hyperfleet_kube_app.Dynamo.Watcher.Loop.{
  Signal, ticker_fired, stop_closed, LoopState, relist_loop, relist_loop-IsClosedOnce,
}
use rosa_hyperfleet_kube_app.Dynamo.Client.{Item}
use rosa_hyperfleet_kube_app.Tests.Memory.{ok_same}
use rosa_hyperfleet_kube_app.Tests.Watching.{two_pages, poller, full_items}

abbrev first_round : List Event × Cache
first_round = relist_step poller 9 new_cache full_items

-- The first relist has changed the cache and emitted one of its two events.
abbrev relisted : Loops
relisted =
    relist_applies poller "t" 9 full_items (record loops_start { relist = scanned full_items })

reached : Reach poller "t" relisted
unfolding scan_all extract_document_id_and_update_time lookup insert collect_items
reached =
    later (later begin (relist_scans 3 0 full_items refl refl)) (relist_changes 9 full_items refl)

nothing_asked :
    (items : List Item) (unprocessed : List String) (k : String)
    → ◌≡◌ {A = Result (List Item × List String)} (ok ([], [])) (ok (items, unprocessed))
    → (names k items ≡ false) × (contains unprocessed k ≡ false)
nothing_asked items unprocessed k answered =
    let none_found : ◌≡◌ {A = List Item × List String} ([], []) (items, unprocessed) =
      ok_same answered in
    subst (λ (a : List Item × List String). (names k a.0 ≡ false) × (contains a.1 k ≡ false))
      none_found (refl, refl)

two_pages-IsBatch : IsBatch two_pages "t"
two_pages-IsBatch = record {
  batch_get_item-asked =
      λ w keys items unprocessed k answered other. nothing_asked items unprocessed k answered;
}

Reach-IsSynced_example :
    ((relist_events relisted.relist ≡ []) ⊎ (poll_events relisted.poll ≡ []))
    × IsSynced poller relisted.cache (
        apply_events
          (poll_events relisted.poll)
          (apply_events (relist_events relisted.relist) relisted.items))
unfolding relist_applies
Reach-IsSynced_example = Reach-IsSynced poller "t" relisted two_pages-IsBatch reached refl

-- A tick, and then Stop.
abbrev signals : List (Signal ℕ)
signals = ticker_fired (λ c. c) (λ w. 0) ∷ stop_closed ∷ []

abbrev second_round : List Event × Cache
second_round = relist_step poller 9 first_round.1 full_items

abbrev stopped : LoopState
stopped = record {
  first_relist = false;
  done_closes = 1;
  results = true ∷ true ∷ [];
  cache = second_round.1;
  events = first_round.0 ++ second_round.0;
}

loop_runs : (relist_loop poller "t" 3 (λ w. 9) signals new_cache 0).0 ≡ some stopped
unfolding relist_loop run_relist scan_all extract_document_id_and_update_time lookup insert
    relist_step collect_items
loop_runs = refl

relist_loop-IsClosedOnce_example : stopped.done_closes ≡ 1
relist_loop-IsClosedOnce_example =
    relist_loop-IsClosedOnce poller "t" 3 (λ w. 9) signals new_cache stopped 0 loop_runs
