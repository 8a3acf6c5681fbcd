-- ===== src/Tests/Watching.antt =====
-- The watcher on small caches and tables.
pub mod Looping
use rosa_hyperfleet_kube_app.Prelude.{
  ℕ, suc, ◌≤◌, ◌<◌, String, ◌≡◌, refl, sym, true, false, Option, none, some, List, [], ◌∷◌, Assoc,
  lookup, insert, IsMap, contains, length, if◌then◌else◌, ◌==◌, string_eq, nat_eq, arith,
}
use rosa_hyperfleet_kube_app.Tests.Memory.{ok_same}
use rosa_hyperfleet_kube_app.Prelude.Int.{pos}
use rosa_hyperfleet_kube_app.Base.{Result, ok, err, not_found}
use rosa_hyperfleet_kube_app.Dynamo.Client.{Client, Item, AttributeValue, member_s, Page}
use rosa_hyperfleet_kube_app.Dynamo.Shard.{compute_shard, format_uint, shard_count_or_default}
use rosa_hyperfleet_kube_app.Dynamo.Cache.{Cache, find_changed, apply_stubs, apply_relist}
use rosa_hyperfleet_kube_app.Dynamo.Cache.Changes.{or_else}
use rosa_hyperfleet_kube_app.Dynamo.Cache.Relist.{
  contains-find_changed, apply_stubs_exact, apply_relist_exact,
}
use rosa_hyperfleet_kube_app.Dynamo.Polling.{
  Poller, scan_all, chunks_of, collect_items, extract_document_id_and_update_time,
}
use rosa_hyperfleet_kube_app.Dynamo.Polling.Pages.{IsPaged, scan_all_ends}
use rosa_hyperfleet_kube_app.Dynamo.Polling.Chunks.{chunks_complete, joined, AllWithin}
use rosa_hyperfleet_kube_app.Dynamo.Watcher.{
  Event, Options, relist_step, fetched_step, run_relist, poll_since, max_lookback_window_or_default,
  relist_interval_or_default,
}
use rosa_hyperfleet_kube_app.Dynamo.Watcher.Mirror.{apply_events, time_of}
use rosa_hyperfleet_kube_app.Dynamo.Watcher.Dated.{IsDated}
use rosa_hyperfleet_kube_app.Dynamo.Watcher.Sync.{
  IsSynced, relist_step_exact, run_relist_syncs, relist_step_again,
}
use rosa_hyperfleet_kube_app.Dynamo.Watcher.Window.{poll_since_covers}
use rosa_hyperfleet_kube_app.Dynamo.Adapter.{Decoder, on_changes, watch_event, watch_events}
use rosa_hyperfleet_kube_app.Dynamo.Adapter.Capacity.{on_changes-fits, on_changes-bounded}

-- A cache of two documents, and stubs of which one is new, one changed, and one gone.
abbrev cached : Cache
cached = record { items = ("a", 1) ∷ ("b", 2) ∷ []; last_relist_at = some 100 }

abbrev stubs : Assoc String ℕ
stubs = ("b", 3) ∷ ("c", 4) ∷ []

cached-IsMap : IsMap cached.items
unfolding lookup
cached-IsMap = (refl, (refl, tt))

stubs-IsMap : IsMap stubs
unfolding lookup
stubs-IsMap = (refl, (refl, tt))

apply_relist_exact_example :
    let (d, c') = apply_relist 200 cached stubs in
    (contains d.added "b" ≡ false)
    × (contains d.modified "b" ≡ true)
    × (contains d.deleted "b" ≡ false)
    × (lookup "b" c'.items ≡ some 3)
    × (c'.last_relist_at ≡ some 200)
    × IsMap c'.items
unfolding lookup
apply_relist_exact_example = apply_relist_exact cached stubs 200 "b" cached-IsMap stubs-IsMap

-- A scan of two pages, over a world that counts the calls; times are texts of one letter.
abbrev pub parse_time : String → Option ℕ
parse_time t = if t == "x" then some 1 else if t == "y" then some 2 else none

abbrev pub item_with : String → String → Item
item_with id t = ("documentID", member_s id) ∷ ("updateTime", member_s t) ∷ []

abbrev pub page_after : Item → Page
page_after [] = record {
  items = item_with "a" "x" ∷ [];
  last_evaluated_key = ("documentID", member_s "a") ∷ [];
}
page_after (k ∷ key) = record { items = item_with "b" "y" ∷ []; last_evaluated_key = [] }

abbrev pub two_pages : Client ℕ
two_pages = record {
  get_item = λ t id w. (ok [], w);
  put_item = λ t i cond w. (ok tt, w);
  delete_item = λ t id w. (ok tt, w);
  scan_pages = λ t w. ([], w);
  scan = λ t key w. (ok (page_after key), suc w);
  query = λ t shard since key w. (ok (page_after key), suc w);
  batch_get_item = λ t keys w. (ok ([], []), w);
}

abbrev pub poller : Poller ℕ
poller = record {
  client = two_pages;
  time = record { parse = parse_time; format = format_uint };
  wait = λ n w. (none, w);
}

abbrev pages_of : Item → ℕ
pages_of [] = 2
pages_of (k ∷ key) = 1

falls :
    (key : Item) (page : Page) (a : String × AttributeValue) (r : Item)
    → page_after key ≡ page
    → page.last_evaluated_key ≡ a ∷ r
    → 1 < pages_of key
falls [] page a r found more = omega arith
falls (k ∷ key) page a r found more = absurd (cc (rw (sym found) at more))

abbrev two_pages_law : IsPaged two_pages "t"
two_pages_law = record {
  pages_left = λ w key. pages_of key;
  pages_left_falls = λ w key page a r found more. falls key page a r (ok_same found) more;
}

scan_all_ends_example : (r : Result (Assoc String Item)) × ((scan_all poller "t" 3 0).0 ≡ some r)
scan_all_ends_example = scan_all_ends poller "t" two_pages_law 3 0 (omega arith)

-- A consumer that has the old version of one document, in step with the cache.
abbrev pub old_items : Assoc String Item
old_items = ("b", item_with "b" "x") ∷ []

abbrev pub full_items : Assoc String Item
full_items = ("a", item_with "a" "x") ∷ ("b", item_with "b" "y") ∷ []

abbrev pub old_cache : Cache
old_cache = record { items = ("b", 1) ∷ []; last_relist_at = some 5 }

pub old-IsSynced : IsSynced poller old_cache old_items
unfolding lookup extract_document_id_and_update_time
old-IsSynced = ((refl, tt), (λ k. ground arith), (λ k. ground arith))

pub full_IsMap : IsMap full_items
unfolding lookup
full_IsMap = (refl, (refl, tt))

pub full_IsDated : IsDated poller full_items
unfolding lookup extract_document_id_and_update_time
full_IsDated k = ground arith

-- The events and the cache of the relist that scans the two pages.
abbrev round : List Event × Cache
round = relist_step poller 9 old_cache full_items

relist_runs : (run_relist poller "t" 3 (λ w. 9) old_cache 0).0 ≡ some (true, (round.0, round.1))
unfolding run_relist scan_all extract_document_id_and_update_time lookup insert relist_step
    collect_items
relist_runs = refl

run_relist_syncs_example : IsSynced poller round.1 (apply_events round.0 old_items)
run_relist_syncs_example =
    run_relist_syncs poller "t" 3 (λ w. 9) old_cache round.1 old_items 0 true round.0 old-IsSynced
      relist_runs

times_differ :
    time_of poller (lookup "b" old_items) ≡ time_of poller (lookup "b" full_items)
    → lookup "b" old_items ≡ lookup "b" full_items
unfolding lookup extract_document_id_and_update_time
times_differ h = absurd (cc h)

asked_for : (k : String) → contains ("a" ∷ "b" ∷ []) k ≡ false → lookup k full_items ≡ none
unfolding lookup
asked_for k h = ground arith

relist_step_exact_example :
    lookup "b" (apply_events (relist_step poller 9 old_cache full_items).0 old_items)
    ≡ some (item_with "b" "y")
unfolding lookup
relist_step_exact_example =
    relist_step_exact poller 9 old_cache full_items old_items "b" old-IsSynced full_IsMap
      full_IsDated times_differ

relist_step_again_example :
    (relist_step poller 10 (relist_step poller 9 old_cache full_items).1 full_items).0 ≡ []
relist_step_again_example =
    relist_step_again poller 9 10 old_cache full_items old-IsSynced.0 full_IsMap

-- The last relist was 15 seconds ago, and the greatest lookback is the default relist interval.
abbrev options : Options
options = record {
  poll_interval = 0;
  relist_interval = 0;
  max_lookback_window = 0;
  shard_count = 0;
}

poll_since_covers_example :
    (poll_since options 20000 20003 (record old_cache { last_relist_at = some 5000 }) ≡ 5003)
    × (0 < max_lookback_window_or_default options)
    × (max_lookback_window_or_default options ≤ relist_interval_or_default options)
unfolding max_lookback_window_or_default
poll_since_covers_example =
    poll_since_covers options 20000 20003 5000 (record old_cache { last_relist_at = some 5000 })
      refl (omega arith) (omega arith)

-- Objects are document IDs; an item without one does not decode.
abbrev decode_id : Option AttributeValue → Result String
decode_id (some (member_s id)) = ok id
decode_id _ = err not_found

abbrev id_decoder : Decoder String
id_decoder = record {
  decode = λ item. decode_id (lookup "documentID" item);
  partial_object_metadata = λ id. id;
}

abbrev two_events : List Event
two_events = ("a", some (item_with "a" "x")) ∷ ("b", none) ∷ []

events_fit : length (watch_events id_decoder two_events) ≤ 100
unfolding watch_event lookup
events_fit = omega arith
