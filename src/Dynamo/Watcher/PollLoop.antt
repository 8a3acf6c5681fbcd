-- ===== src/Dynamo/Watcher/PollLoop.antt =====
-- fastPollLoop of seaplane-dynamo/dynamodb/watcher.go: the select over the context, Stop and the ticker.
use std.Path.{subst}
use rosa_hyperfleet_kube_app.Prelude.{
  ℕ, String, ◌≡◌, Option, none, some, List, [], ◌∷◌, Option-cases, inl, inr,
}
use rosa_hyperfleet_kube_app.Dynamo.Polling.{Poller}
use rosa_hyperfleet_kube_app.Dynamo.Watcher.{Options, run_fast_poll}
use rosa_hyperfleet_kube_app.Dynamo.Watcher.Mirror.{apply_events}
use rosa_hyperfleet_kube_app.Dynamo.Watcher.Fetched.{IsBatch}
use rosa_hyperfleet_kube_app.Dynamo.Watcher.Sync.{IsSynced}
use rosa_hyperfleet_kube_app.Dynamo.Watcher.Polled.{State, run_fast_poll_syncs}

-- What the select receives. A tick comes with the two times of poll_since, and with what has
-- happened since the poll before: relists that have not overlapped with a poll, and what others did to
-- the tables. Overlapping loops are in Watcher/Interleaved.
pub data PollSignal (S : Type 0) : Type 0 where
  context_done : PollSignal S
  stop_closed : PollSignal S
  ticker_fired : ℕ → ℕ → (S → S) → PollSignal S

ended : {S : Type 0} (s t : S) → some s ≡ some t → s ≡ t
ended s t h = cc h

module _ {W : Type 0} (p : Poller W) (table : String) (fuel : ℕ) (o : Options) where
  -- w.runFastPoll(ctx, log), with its events applied by the consumer.
  abbrev pub poll_tick : ℕ → ℕ → State p table → Option (State p table)
  poll_tick looked now s =
      let (r, w') = run_fast_poll p table fuel o looked now s.cache s.world in
      elim r [
        | none ↦ none
        | some (events, c) ↦
            some (record { cache = c; items = apply_events events s.items; world = w' })
      ]

  -- Nothing is returned when a query's fuel runs out.
  unfoldable pub fast_poll_loop :
      List (PollSignal (State p table)) → State p table → Option (State p table)
  fast_poll_loop [] s = some s
  fast_poll_loop (context_done ∷ signals) s = some s
  fast_poll_loop (stop_closed ∷ signals) s = some s
  fast_poll_loop (ticker_fired looked now meanwhile ∷ signals) s =
      elim (poll_tick looked now (meanwhile s)) [
        | none ↦ none
        | some s' ↦ fast_poll_loop signals s'
      ]

  abbrev pub IsInStep : State p table → Type 0
  IsInStep s = IsSynced p s.cache s.items

  -- What happens between the ticks leaves the consumer in step, as relists do.
  abbrev pub KeepsInStep : List (PollSignal (State p table)) → Type 0
  KeepsInStep [] = Unit
  KeepsInStep (context_done ∷ signals) = KeepsInStep signals
  KeepsInStep (stop_closed ∷ signals) = KeepsInStep signals
  KeepsInStep (ticker_fired looked now meanwhile ∷ signals) =
      ((s : State p table) → IsInStep s → IsInStep (meanwhile s)) × KeepsInStep signals

  poll_tick-IsInStep :
      (looked now : ℕ) (s t : State p table)
      → IsBatch p.client table
      → IsInStep s
      → poll_tick looked now s ≡ some t
      → IsInStep t
  poll_tick-IsInStep looked now s t law h done =
      elim (Option-cases (run_fast_poll p table fuel o looked now s.cache s.world).0) [
        | inl stuck ↦ absurd (cc (rw (poll_tick, stuck) at done))
        | inr ((events, c), polled) ↦
            let same : record {
              cache = c;
              items = apply_events events s.items;
              world = (run_fast_poll p table fuel o looked now s.cache s.world).1;
            }
                ≡ t =
              cc (rw (poll_tick, polled) at done) in
            subst IsInStep same (
              run_fast_poll_syncs p table fuel o looked now s.cache c s.items s.world events law h
                polled)
      ]

  -- When the fast poll loop ends, or at any point of it, a consumer that was in step with the cache is in
  -- step with it, whatever errors the polls have had, if what happened between the ticks kept it
  -- in step and a batch read returns items of the keys that it was asked for.
  pub fast_poll_loop-IsInStep :
      (signals : List (PollSignal (State p table))) (s t : State p table)
      → IsBatch p.client table
      → KeepsInStep signals
      → IsInStep s
      → fast_poll_loop signals s ≡ some t
      → IsInStep t
  unfolding fast_poll_loop
  fast_poll_loop-IsInStep [] s t law keeps h done = subst IsInStep (ended s t done) h
  fast_poll_loop-IsInStep (context_done ∷ signals) s t law keeps h done =
      subst IsInStep (ended s t done) h
  fast_poll_loop-IsInStep (stop_closed ∷ signals) s t law keeps h done =
      subst IsInStep (ended s t done) h
  fast_poll_loop-IsInStep (ticker_fired looked now meanwhile ∷ signals) s t law keeps h done =
      elim (Option-cases (poll_tick looked now (meanwhile s))) [
        | inl stuck ↦ absurd (cc (rw (fast_poll_loop, stuck) at done))
        | inr (s', ticked) ↦
            fast_poll_loop-IsInStep signals s' t law keeps.1
              (poll_tick-IsInStep looked now (meanwhile s) s' law (keeps.0 s h) ticked)
              (rw (fast_poll_loop, ticked) at done)
      ]
