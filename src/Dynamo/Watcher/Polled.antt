-- ===== src/Dynamo/Watcher/Polled.antt =====
-- A fast poll by itself, and what its consumer has afterwards.
use std.Path.{subst}
use rosa_hyperfleet_kube_app.Prelude.{
  ℕ, String, ◌≡◌, inl, inr, some, List, [], ◌∷◌, Assoc, string_eq, Option-cases,
}
use rosa_hyperfleet_kube_app.Base.{ok, err, Result-cases}
use rosa_hyperfleet_kube_app.Dynamo.Client.{Item}
use rosa_hyperfleet_kube_app.Dynamo.Cache.{Cache, find_changed}
use rosa_hyperfleet_kube_app.Dynamo.Polling.{Poller, query_since, batch_get_items}
use rosa_hyperfleet_kube_app.Dynamo.Watcher.{
  Event, Options, fetch_changed, run_fast_poll, poll_since, watcher_shard_count,
}
use rosa_hyperfleet_kube_app.Dynamo.Watcher.Mirror.{apply_events}
use rosa_hyperfleet_kube_app.Dynamo.Watcher.Fetched.{IsBatch, batch_get_items-asked}
use rosa_hyperfleet_kube_app.Dynamo.Watcher.Sync.{IsSynced, fetched_step_syncs}

module _ {W : Type 0} (p : Poller W) (table : String) where
  fetch_changed_syncs :
      (changed : List String) (c : Cache) (m : Assoc String Item) (w : W)
      → IsBatch p.client table
      → IsSynced p c m
      → IsSynced p
          (fetch_changed p table changed c w).0.1
          (apply_events (fetch_changed p table changed c w).0.0 m)
  fetch_changed_syncs [] c m w law h = h
  fetch_changed_syncs (k ∷ ks) c m w law h =
      elim (Result-cases (batch_get_items p table (k ∷ ks) w).0) [
        | inl (e, failed) ↦ rw (fetch_changed, failed) h
        | inr (full, fetched) ↦
            let good = batch_get_items-asked p table (k ∷ ks) full w law fetched in
            rw (fetch_changed, fetched)
              (fetched_step_syncs p c (k ∷ ks) full m h good.0 good.1 good.2)
      ]

  -- A fast poll that ends, with an error or not, keeps a consumer that applies its events in step with
  -- the cache, when a batch read returns items of the keys that it was asked for.
  pub run_fast_poll_syncs :
      (fuel : ℕ) (o : Options) (looked now : ℕ) (c c' : Cache) (m : Assoc String Item) (w : W)
      (events : List Event)
      → IsBatch p.client table
      → IsSynced p c m
      → (run_fast_poll p table fuel o looked now c w).0 ≡ some (events, c')
      → IsSynced p c' (apply_events events m)
  unfolding run_fast_poll
  run_fast_poll_syncs fuel o looked now c c' m w events law h done =
      let query = query_since p table (watcher_shard_count o) fuel (poll_since o looked now c) w in
      elim (Option-cases query.0) [
        | inl stuck ↦ absurd (cc (rw (run_fast_poll, stuck) at done))
        | inr (err e, failed) ↦
            let same : ([], c) ≡ (events, c') = cc (rw (run_fast_poll, failed) at done) in
            subst (λ (r : List Event × Cache). IsSynced p r.1 (apply_events r.0 m)) same h
        | inr (ok stubs, found) ↦
            let result = fetch_changed p table (find_changed c stubs) c query.1 in
            let same : result.0 ≡ (events, c') = cc (rw (run_fast_poll, found) at done) in
            subst (λ (r : List Event × Cache). IsSynced p r.1 (apply_events r.0 m)) same
              (fetch_changed_syncs (find_changed c stubs) c m query.1 law h)
      ]

  -- The watcher's cache, what its consumer has, and the world.
  pub record State : Type 0 where
    pub cache : Cache
    pub items : Assoc String Item
    pub world : W
