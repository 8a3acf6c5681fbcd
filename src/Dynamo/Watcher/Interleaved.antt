-- ===== src/Dynamo/Watcher/Interleaved.antt =====
-- The two loops of Run as goroutines: the lock of the cache covers one change of it, and that of emit one
-- event, so the steps of a relist and of a fast poll come in any order.
use rosa_hyperfleet_kube_app.Prelude.{
  ℕ, String, ◌≡◌, refl, ◌⊎◌, inl, inr, Bool, true, false, ◌||◌, none, some, List, [], ◌∷◌, Assoc,
  lookup, IsMap, contains, string_eq,
}
use rosa_hyperfleet_kube_app.Base.{ok}
use rosa_hyperfleet_kube_app.Dynamo.Client.{Item}
use rosa_hyperfleet_kube_app.Dynamo.Cache.{Cache, new_cache, find_changed}
use rosa_hyperfleet_kube_app.Dynamo.Polling.{Poller, scan_all, batch_get_items}
use rosa_hyperfleet_kube_app.Dynamo.Watcher.{Event, relist_step, fetched_step}
use rosa_hyperfleet_kube_app.Dynamo.Watcher.Mirror.{apply_event, apply_events}
use rosa_hyperfleet_kube_app.Dynamo.Watcher.Dated.{IsDated, scan_all-IsDated}
use rosa_hyperfleet_kube_app.Dynamo.Watcher.Fetched.{IsBatch, batch_get_items-asked}
use rosa_hyperfleet_kube_app.Dynamo.Watcher.Sync.{IsSynced, relist_step_syncs, fetched_step_syncs}

-- How far a relist is: it has scanned the table, or has changed the cache and has events to emit; with
-- none left it waits for the ticker.
pub data RelistPhase : Type 0 where
  scanned : Assoc String Item → RelistPhase
  relist_emitting : List Event → RelistPhase

-- How far a fast poll is, with the changed documents and what was fetched of them.
pub data PollPhase : Type 0 where
  changes_found : List String → PollPhase
  fetched : List String → Assoc String Item → PollPhase
  poll_emitting : List Event → PollPhase

-- The watcher's cache, what its consumer has, and the phases. `overlapped` says whether a loop has ever
-- changed the cache while the other had events to emit.
pub record Loops : Type 0 where
  pub cache : Cache
  pub items : Assoc String Item
  pub relist : RelistPhase
  pub poll : PollPhase
  pub overlapped : Bool

abbrev pub loops_start : Loops
loops_start = record {
  cache = new_cache;
  items = [];
  relist = relist_emitting [];
  poll = poll_emitting [];
  overlapped = false;
}

-- The events that a loop has yet to emit.
abbrev pub relist_events : RelistPhase → List Event
relist_events (scanned full) = []
relist_events (relist_emitting events) = events

abbrev pub poll_events : PollPhase → List Event
poll_events (changes_found changed) = []
poll_events (fetched changed full) = []
poll_events (poll_emitting events) = events

abbrev pub is_pending : List Event → Bool
is_pending [] = false
is_pending (e ∷ events) = true

module _ {W : Type 0} (p : Poller W) (table : String) where
  -- w.cache.ApplyRelist(stubs)
  unfoldable pub relist_applies : ℕ → Assoc String Item → Loops → Loops
  unfolding relist_step
  relist_applies now full s =
      let (events, c) = relist_step p now s.cache full in
      record s {
        cache = c;
        relist = relist_emitting events;
        overlapped = s.overlapped || is_pending (poll_events s.poll);
      }

  -- w.cache.ApplyStubs(fetchedStubs)
  unfoldable pub poll_applies : List String → Assoc String Item → Loops → Loops
  unfolding fetched_step
  poll_applies changed items s =
      let (events, c) = fetched_step p s.cache changed items in
      record s {
        cache = c;
        poll = poll_emitting events;
        overlapped = s.overlapped || is_pending (relist_events s.relist);
      }

  -- A step of either loop. A scan, a query or a fetch has seen the tables at some time; a loop begins when it
  -- has emitted all its events. A scan, query or fetch that fails, and a poll that finds no changes,
  -- end in the phase that the loop began with.
  pub data Step (s : Loops) : Loops → Type 0 where
    relist_scans :
        (fuel : ℕ) (w : W) (full : Assoc String Item)
        → s.relist ≡ relist_emitting []
        → (scan_all p table fuel w).0 ≡ some (ok full)
        → Step s (record s { relist = scanned full })
    relist_changes :
        (now : ℕ) (full : Assoc String Item)
        → s.relist ≡ scanned full
        → Step s (relist_applies now full s)
    relist_emits :
        (e : Event) (events : List Event)
        → s.relist ≡ relist_emitting (e ∷ events)
        → Step s (record s { items = apply_event e s.items; relist = relist_emitting events })
    poll_finds :
        (stubs : Assoc String ℕ)
        → s.poll ≡ poll_emitting []
        → Step s (record s { poll = changes_found (find_changed s.cache stubs) })
    poll_gives_up :
        (changed : List String)
        → s.poll ≡ changes_found changed
        → Step s (record s { poll = poll_emitting [] })
    poll_fetches :
        (w : W) (changed : List String) (full : Assoc String Item)
        → s.poll ≡ changes_found changed
        → (batch_get_items p table changed w).0 ≡ ok full
        → Step s (record s { poll = fetched changed full })
    poll_changes :
        (changed : List String) (full : Assoc String Item)
        → s.poll ≡ fetched changed full
        → Step s (poll_applies changed full s)
    poll_emits :
        (e : Event) (events : List Event)
        → s.poll ≡ poll_emitting (e ∷ events)
        → Step s (record s { items = apply_event e s.items; poll = poll_emitting events })

  pub data Reach : Loops → Type 0 where
    begin : Reach loops_start
    later : {s t : Loops} → Reach s → Step s t → Reach t

  abbrev IsScanned : RelistPhase → Type 0
  IsScanned (relist_emitting events) = Unit
  IsScanned (scanned full) = IsMap full × IsDated p full

  abbrev IsFetched : PollPhase → Type 0
  IsFetched (poll_emitting events) = Unit
  IsFetched (changes_found changed) = Unit
  IsFetched (fetched changed full) =
      IsMap full
      × IsDated p full
      × ((k : String) → contains changed k ≡ false → lookup k full ≡ none)

  -- At most one loop has events to emit, and with them the consumer is in step with the cache.
  abbrev IsOnTime : Cache → Assoc String Item → List Event → List Event → Type 0
  IsOnTime c m from_relist from_poll =
      ((from_relist ≡ []) ⊎ (from_poll ≡ []))
      × IsSynced p c (apply_events from_poll (apply_events from_relist m))

  record IsInterleaved (s : Loops) : Type 0 where
    is_scanned : IsScanned s.relist
    is_fetched : IsFetched s.poll
    on_time :
        s.overlapped ≡ false
        → IsOnTime s.cache s.items (relist_events s.relist) (poll_events s.poll)

  not_pending : (events : List Event) → is_pending events ≡ false → events ≡ []
  not_pending [] h = refl
  not_pending (e ∷ events) h = absurd (cc h)

  or_false : (a b : Bool) → (a || b) ≡ false → (a ≡ false) × (b ≡ false)
  or_false true b h = absurd (cc h)
  or_false false b h = (refl, h)

  loops_start-IsInterleaved : IsInterleaved loops_start
  unfolding lookup
  loops_start-IsInterleaved = record {
    is_scanned = tt;
    is_fetched = tt;
    on_time = λ h. (inl refl, (tt, (λ k. refl), λ k. refl));
  }

  -- The next event of a loop is emitted.
  relist_event-IsOnTime :
      (c : Cache) (m : Assoc String Item) (e : Event) (events from_poll : List Event)
      → IsOnTime c m (e ∷ events) from_poll
      → IsOnTime c (apply_event e m) events from_poll
  relist_event-IsOnTime c m e events from_poll (inl none_left, h) = absurd (cc none_left)
  relist_event-IsOnTime c m e events from_poll (inr quiet, h) = (inr quiet, h)

  poll_event-IsOnTime :
      (c : Cache) (m : Assoc String Item) (e : Event) (from_relist events : List Event)
      → IsOnTime c m from_relist (e ∷ events)
      → IsOnTime c (apply_event e m) from_relist events
  poll_event-IsOnTime c m e from_relist events (inl quiet, h) =
      (inl quiet, rw quiet (rw quiet at h))
  poll_event-IsOnTime c m e from_relist events (inr none_left, h) = absurd (cc none_left)

  Step-IsInterleaved :
      {s t : Loops} → IsBatch p.client table → Step s t → IsInterleaved s → IsInterleaved t
  unfolding relist_applies poll_applies
  Step-IsInterleaved law (relist_scans fuel w full idle found) h = record {
    is_scanned = scan_all-IsDated p table fuel full w found;
    is_fetched = h.is_fetched;
    on_time = λ apart. rw idle at (h.on_time apart);
  }
  Step-IsInterleaved {s} law (relist_changes now full here) h = record {
    is_scanned = tt;
    is_fetched = h.is_fetched;
    on_time = λ apart.
        let (before, quiet) = or_false s.overlapped (is_pending (poll_events s.poll)) apart in
        let none_left = not_pending (poll_events s.poll) quiet in
        let good : IsMap full × IsDated p full = rw here at h.is_scanned in
        let synced : IsSynced p s.cache s.items = rw (here, none_left) at (h.on_time before).1 in
        (
          inr none_left,
          rw none_left (relist_step_syncs p now s.cache full s.items synced good.0 good.1),
        );
  }
  Step-IsInterleaved {s} law (relist_emits e events here) h = record {
    is_scanned = tt;
    is_fetched = h.is_fetched;
    on_time = λ apart.
        relist_event-IsOnTime s.cache s.items e events (poll_events s.poll)
          (rw here at (h.on_time apart));
  }
  Step-IsInterleaved law (poll_finds stubs idle) h = record {
    is_scanned = h.is_scanned;
    is_fetched = tt;
    on_time = λ apart. rw idle at (h.on_time apart);
  }
  Step-IsInterleaved law (poll_gives_up changed here) h = record {
    is_scanned = h.is_scanned;
    is_fetched = tt;
    on_time = λ apart. rw here at (h.on_time apart);
  }
  Step-IsInterleaved law (poll_fetches w changed full here got) h = record {
    is_scanned = h.is_scanned;
    is_fetched = batch_get_items-asked p table changed full w law got;
    on_time = λ apart. rw here at (h.on_time apart);
  }
  Step-IsInterleaved {s} law (poll_changes changed full here) h = record {
    is_scanned = h.is_scanned;
    is_fetched = tt;
    on_time = λ apart.
        let (before, quiet) = or_false s.overlapped (is_pending (relist_events s.relist)) apart in
        let none_left = not_pending (relist_events s.relist) quiet in
        let good : IsMap full
            × IsDated p full
            × ((k : String) → contains changed k ≡ false → lookup k full ≡ none) =
          rw here at h.is_fetched in
        let synced : IsSynced p s.cache s.items = rw (here, none_left) at (h.on_time before).1 in
        (
          inl none_left,
          rw none_left
              (fetched_step_syncs p s.cache changed full s.items synced good.0 good.1 good.2),
        );
  }
  Step-IsInterleaved {s} law (poll_emits e events here) h = record {
    is_scanned = h.is_scanned;
    is_fetched = tt;
    on_time = λ apart.
        poll_event-IsOnTime s.cache s.items e (relist_events s.relist) events
          (rw here at (h.on_time apart));
  }

  Reach-IsInterleaved : (s : Loops) → IsBatch p.client table → Reach s → IsInterleaved s
  Reach-IsInterleaved s law begin = loops_start-IsInterleaved
  Reach-IsInterleaved s law (later {s = before} r step) =
      Step-IsInterleaved law step (Reach-IsInterleaved before law r)

  -- In any interleaving of the steps of relists and fast polls, from the start of the watcher and with
  -- whatever errors, if neither loop has yet changed the cache while the other had events to emit,
  -- then the consumer, once it has the events that are still to be emitted, has exactly the items
  -- of the watcher's cache, each with the time that the cache has for it; their order does not matter, as
  -- at most one loop has any. A batch read must return items of the keys that it was asked for.
  pub Reach-IsSynced :
      (s : Loops)
      → IsBatch p.client table
      → Reach s
      → s.overlapped ≡ false
      → ((relist_events s.relist ≡ []) ⊎ (poll_events s.poll ≡ []))
        × IsSynced p s.cache
            (apply_events (poll_events s.poll) (apply_events (relist_events s.relist) s.items))
  Reach-IsSynced s law r apart = (Reach-IsInterleaved s law r).on_time apart
