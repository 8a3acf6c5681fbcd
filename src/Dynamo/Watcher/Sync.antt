-- ===== src/Dynamo/Watcher/Sync.antt =====
-- A consumer that applies the events of every round holds what the watcher's cache says it holds.
use rosa_hyperfleet_kube_app.Prelude.{
  ℕ, String, ◌≡◌, refl, ap, ◌∙◌, sym, inl, inr, Bool, false, not, ◌&&◌, none, some, List, [], ◌++◌,
  Assoc, lookup, IsMap, contains, if◌then◌else◌, string_eq, arith, Option-cases,
}
use std.Path.{subst}
use rosa_hyperfleet_kube_app.Base.{ok, err}
use rosa_hyperfleet_kube_app.Dynamo.Client.{Item}
use rosa_hyperfleet_kube_app.Dynamo.Cache.{Cache, apply_relist}
use rosa_hyperfleet_kube_app.Dynamo.Cache.Changes.{is_some, differs, or_else}
use rosa_hyperfleet_kube_app.Dynamo.Cache.Relist.{
  apply_relist_again, apply_relist_exact, apply_stubs_exact, apply_stubs-IsMap,
}
use rosa_hyperfleet_kube_app.Dynamo.Polling.{Poller, scan_all}
use rosa_hyperfleet_kube_app.Dynamo.Watcher.{
  Event, emit_items, emit_deleted, stubs_of, relist_step, fetched_step, run_relist,
}
use rosa_hyperfleet_kube_app.Dynamo.Watcher.Dated.{present, IsDated, scan_all-IsDated}
use rosa_hyperfleet_kube_app.Dynamo.Watcher.Mirror.{
  apply_events, time_of, apply_events-append, lookup-emit_items, lookup-emit_deleted,
  lookup-emit_fetched, lookup-stubs_of, or_kept,
}

module _ {W : Type 0} (p : Poller W) where
  -- The consumer's items have the times that the cache has, document for document.
  abbrev pub IsSynced : Cache → Assoc String Item → Type 0
  IsSynced c m =
      IsMap c.items × IsDated p m × ((k : String) → lookup k c.items ≡ time_of p (lookup k m))

  module _ (now : ℕ) (c : Cache) (full m : Assoc String Item) where
    relist_lookup :
        (k : String)
        → IsSynced c m
        → IsMap full
        → lookup k (apply_events (relist_step p now c full).0 m) ≡ (
            let t = time_of p (lookup k full) in
            let u = time_of p (lookup k m) in
            if is_some u && not (is_some t)
            then none
            else if differs t u
            then lookup k full
            else lookup k m)
    unfolding relist_step
    relist_lookup k (is_map, dated, times) h =
        let d = (apply_relist now c (stubs_of p full)).0 in
        let m1 = apply_events (emit_items d.added full) m in
        let m2 = apply_events (emit_items d.modified full) m1 in
        let (found, stubs_map) = lookup-stubs_of p k full h in
        let exact = apply_relist_exact c (stubs_of p full) now k is_map stubs_map in
        ap (lookup k) (
          apply_events-append (emit_items d.added full)
            (emit_items d.modified full ++ emit_deleted d.deleted) m
          ∙ apply_events-append (emit_items d.modified full) (emit_deleted d.deleted) m1)
        ∙ ground (
          arith,
          lookup-emit_items k d.added full m,
          lookup-emit_items k d.modified full m1,
          lookup-emit_deleted k d.deleted m2,
          exact,
          found,
          times k,
        )

    -- After a relist, the consumer's items have the times of the scanned ones, document for document.
    relist_step_times :
        (k : String)
        → IsSynced c m
        → IsMap full
        → IsDated p full
        → time_of p (lookup k (apply_events (relist_step p now c full).0 m))
          ≡ time_of p (lookup k full)
    relist_step_times k h hf dated = ground (arith, relist_lookup k h hf, dated k, h.1 k, h.2 k)

    relist_step_dated :
        (k : String)
        → IsSynced c m
        → IsMap full
        → IsDated p full
        → is_some (time_of p (lookup k (apply_events (relist_step p now c full).0 m)))
          ≡ present (lookup k (apply_events (relist_step p now c full).0 m))
    relist_step_dated k h hf dated = ground (arith, relist_lookup k h hf, dated k, h.1 k, h.2 k)

    relist_step_cache :
        (k : String)
        → IsSynced c m
        → IsMap full
        → (lookup k (relist_step p now c full).1.items ≡ time_of p (lookup k full))
          × IsMap (relist_step p now c full).1.items
    unfolding relist_step
    relist_step_cache k h hf =
        let (found, stubs_map) = lookup-stubs_of p k full hf in
        let exact = apply_relist_exact c (stubs_of p full) now k h.0 stubs_map in
        (exact.3 ∙ found, exact.5)

    pub relist_step_syncs :
        IsSynced c m
        → IsMap full
        → IsDated p full
        → IsSynced (relist_step p now c full).1 (apply_events (relist_step p now c full).0 m)
    relist_step_syncs h hf dated = (
      (relist_step_cache "" h hf).1,
      (λ k. relist_step_dated k h hf dated),
      (λ k. (relist_step_cache k h hf).0 ∙ sym (relist_step_times k h hf dated)),
    )

    -- A relist whose scan has each document once and with a time gives a consumer that was in
    -- step with the cache exactly the scanned item of a document, or none if it was not scanned,
    -- provided that an item with the same time as the consumer's is the same item.
    pub relist_step_exact :
        (k : String)
        → IsSynced c m
        → IsMap full
        → IsDated p full
        → (time_of p (lookup k m) ≡ time_of p (lookup k full) → lookup k m ≡ lookup k full)
        → lookup k (apply_events (relist_step p now c full).0 m) ≡ lookup k full
    relist_step_exact k h hf dated same =
        ground (arith, relist_lookup k h hf, dated k, h.1 k, h.2 k, same)

  -- A fast poll that fetches no more than it asked for.
  module _ (c : Cache) (changed : List String) (fetched m : Assoc String Item) where
    fetched-lookup :
        (k : String)
        → IsSynced c m
        → IsMap fetched
        → (contains changed k ≡ false → lookup k fetched ≡ none)
        → (lookup k (fetched_step p c changed fetched).1.items
            ≡ or_else (time_of p (lookup k fetched)) (lookup k c.items))
          × (lookup k (apply_events (fetched_step p c changed fetched).0 m)
              ≡ or_kept (lookup k fetched) (lookup k m))
    unfolding fetched_step
    fetched-lookup k h hf asked =
        let (found, stubs_map) = lookup-stubs_of p k fetched hf in
        let exact = apply_stubs_exact c (stubs_of p fetched) stubs_map in
        (exact.0 k ∙ rw found, ground (arith, lookup-emit_fetched k changed fetched m, asked))

    fetched-IsMap : IsSynced c m → IsMap (fetched_step p c changed fetched).1.items
    unfolding fetched_step
    fetched-IsMap h = apply_stubs-IsMap c (stubs_of p fetched) h.0

    -- A fast poll whose fetched items are among the changed documents, each once and with a time,
    -- keeps a consumer that applies its events in step with the cache.
    pub fetched_step_syncs :
        IsSynced c m
        → IsMap fetched
        → IsDated p fetched
        → ((k : String) → contains changed k ≡ false → lookup k fetched ≡ none)
        → IsSynced
            (fetched_step p c changed fetched).1
            (apply_events (fetched_step p c changed fetched).0 m)
    fetched_step_syncs h hf dated asked = (
      fetched-IsMap h,
      (λ k. ground (arith, fetched-lookup k h hf (asked k), dated k, h.1 k)),
      (λ k. ground (arith, fetched-lookup k h hf (asked k), dated k, h.2 k)),
    )

  -- A relist that ends, with an error or not, keeps a consumer that applies its events in step
  -- with the cache: the consumer's items are those of the cache, each with the time that the
  -- cache has for it.
  pub run_relist_syncs :
      (table : String) (fuel : ℕ) (now : W → ℕ) (c c' : Cache) (m : Assoc String Item) (w : W)
      (complete : Bool) (events : List Event)
      → IsSynced c m
      → (run_relist p table fuel now c w).0 ≡ some (complete, (events, c'))
      → IsSynced c' (apply_events events m)
  unfolding run_relist
  run_relist_syncs table fuel now c c' m w complete events h done =
      elim (Option-cases (scan_all p table fuel w).0) [
        | inl stuck ↦ absurd (cc (rw (run_relist, stuck) at done))
        | inr (err e, failed) ↦
            let r = rw (run_relist, failed) at done in
            let same : ([], c) ≡ (events, c') = cc r in
            subst (λ (o : List Event × Cache). IsSynced o.1 (apply_events o.0 m)) same h
        | inr (ok full, scanned) ↦
            let r = rw (run_relist, scanned) at done in
            let good = scan_all-IsDated p table fuel full w scanned in
            let same : relist_step p (now (scan_all p table fuel w).1) c full ≡ (events, c') =
              cc r in
            subst (λ (o : List Event × Cache). IsSynced o.1 (apply_events o.0 m)) same
              (relist_step_syncs (now (scan_all p table fuel w).1) c full m h good.0 good.1)
      ]

  -- A relist that scans what the relist before it scanned, each document once, emits nothing,
  -- whatever became of the events of that one: what a consumer missed is not repeated.
  pub relist_step_again :
      (now later : ℕ) (c : Cache) (full : Assoc String Item)
      → IsMap c.items
      → IsMap full
      → (relist_step p later (relist_step p now c full).1 full).0 ≡ []
  unfolding relist_step
  relist_step_again now later c full hc hf =
      rw (apply_relist_again c (stubs_of p full) now later hc (lookup-stubs_of p "" full hf).1) refl
