-- ===== src/Dynamo/Watcher/Loop.antt =====
-- relistLoop of seaplane-dynamo/dynamodb/watcher.go: the eager relist, the select over the context, Stop
-- and the ticker, and the channel that Done returns.
use std.Path.{subst}
use rosa_hyperfleet_kube_app.Prelude.{
  ℕ, suc, String, Bool, true, false, not, ◌&&◌, ◌||◌, ◌≡◌, refl, Option, none, some, List, [], ◌∷◌,
  ◌++◌, arith, Bool-cases, Option-cases, inl, inr, if◌then◌else◌,
}
use rosa_hyperfleet_kube_app.Dynamo.Cache.{Cache}
use rosa_hyperfleet_kube_app.Dynamo.Polling.{Poller}
use rosa_hyperfleet_kube_app.Dynamo.Watcher.{Event, run_relist}

-- What the select receives. A tick comes with what has happened since the relist before: to the tables,
-- and to the cache by the fast poll.
pub data Signal (W : Type 0) : Type 0 where
  context_done : Signal W
  stop_closed : Signal W
  ticker_fired : (Cache → Cache) → (W → W) → Signal W

-- `done_closes` counts the calls of close(w.doneCh), of which Go allows one; `results` are what
-- runRelist returned, the last first.
pub record LoopState : Type 0 where
  pub first_relist : Bool
  pub done_closes : ℕ
  pub results : List Bool
  pub cache : Cache
  pub events : List Event

abbrev pub loop_start : Cache → LoopState
loop_start c = record { first_relist = true; done_closes = 0; results = []; cache = c; events = [] }

-- `if ok { firstRelist = false; close(w.doneCh) }`, where `ok` includes the test of firstRelist.
abbrev pub close_done : Bool → LoopState → LoopState
close_done true s = record s { first_relist = false; done_closes = suc s.done_closes }
close_done false s = s

abbrev pub note_relist : Bool → List Event → Cache → LoopState → LoopState
note_relist r events c s = record s {
  results = r ∷ s.results;
  cache = c;
  events = s.events ++ events;
}

module _ {W : Type 0} (p : Poller W) (table : String) (fuel : ℕ) (now : W → ℕ) where
  -- if w.runRelist(ctx, log) { firstRelist = false; close(w.doneCh) }
  abbrev pub eager_relist : LoopState → W → Option LoopState × W
  eager_relist s w =
      let (r, w') = run_relist p table fuel now s.cache w in
      elim r [
        | none ↦ (none, w')
        | some (success, (events, c)) ↦
            (some (close_done success (note_relist success events c s)), w')
      ]

  -- if w.runRelist(ctx, log) && firstRelist { firstRelist = false; close(w.doneCh) }
  abbrev pub tick_relist : LoopState → W → Option LoopState × W
  tick_relist s w =
      let (r, w') = run_relist p table fuel now s.cache w in
      elim r [
        | none ↦ (none, w')
        | some (success, (events, c)) ↦
            (some (close_done (success && s.first_relist) (note_relist success events c s)), w')
      ]

  -- The loop over the signals that it receives; nothing is returned when a scan's fuel runs out.
  abbrev pub loop_signals : List (Signal W) → LoopState → W → Option LoopState × W
  loop_signals [] s w = (some s, w)
  loop_signals (context_done ∷ signals) s w = (some s, w)
  loop_signals (stop_closed ∷ signals) s w = (some s, w)
  loop_signals (ticker_fired polled elsewhere ∷ signals) s w =
      let (r, w') = tick_relist (record s { cache = polled s.cache }) (elsewhere w) in
      elim r [ none ↦ (none, w') | some s' ↦ loop_signals signals s' w' ]

  unfoldable pub relist_loop : List (Signal W) → Cache → W → Option LoopState × W
  relist_loop signals c w =
      let (r, w') = eager_relist (loop_start c) w in
      elim r [ none ↦ (none, w') | some s ↦ loop_signals signals s w' ]

-- Whether some relist succeeded.
abbrev pub any_success : List Bool → Bool
any_success [] = false
any_success (r ∷ results) = r || any_success results

abbrev pub IsClosedOnce : LoopState → Type 0
IsClosedOnce s =
    (s.first_relist ≡ not (any_success s.results))
    × (s.done_closes ≡ (if any_success s.results then 1 else 0))

close_done-IsClosedOnce :
    (r : Bool) (events : List Event) (c : Cache) (s : LoopState)
    → IsClosedOnce s
    → IsClosedOnce (close_done (r && s.first_relist) (note_relist r events c s))
close_done-IsClosedOnce false events c s h = h
close_done-IsClosedOnce true events c s h = elim (Bool-cases s.first_relist) [
  | inl first ↦ rw first (ground (arith, h, first))
  | inr later ↦ rw later (ground (arith, h, later))
]

close_done-eager :
    (r : Bool) (events : List Event) (c c0 : Cache)
    → IsClosedOnce (close_done r (note_relist r events c (loop_start c0)))
close_done-eager false events c c0 = (refl, refl)
close_done-eager true events c c0 = (refl, refl)

module _ {W : Type 0} (p : Poller W) (table : String) (fuel : ℕ) (now : W → ℕ) where
  ended : (s s' : LoopState) → IsClosedOnce s → some s ≡ some s' → IsClosedOnce s'
  ended s s' good h = let same : s ≡ s' = cc h in subst IsClosedOnce same good

  loop_signals-IsClosedOnce :
      (signals : List (Signal W)) (s s' : LoopState) (w : W)
      → IsClosedOnce s
      → (loop_signals p table fuel now signals s w).0 ≡ some s'
      → IsClosedOnce s'
  loop_signals-IsClosedOnce [] s s' w good h = ended s s' good h
  loop_signals-IsClosedOnce (context_done ∷ signals) s s' w good h = ended s s' good h
  loop_signals-IsClosedOnce (stop_closed ∷ signals) s s' w good h = ended s s' good h
  loop_signals-IsClosedOnce (ticker_fired polled elsewhere ∷ signals) s s' w good h =
      elim (Option-cases (run_relist p table fuel now (polled s.cache) (elsewhere w)).0) [
        | inl stuck ↦ absurd (cc (rw (loop_signals, tick_relist, stuck) at h))
        | inr ((success, (events, c)), relisted) ↦
            loop_signals-IsClosedOnce signals _ s' _
              (close_done-IsClosedOnce success events c (record s { cache = polled s.cache }) good)
              (rw (loop_signals, tick_relist, relisted) at h)
      ]

  -- When the relist loop ends, or at any point of it, doneCh has been closed once if some relist has
  -- succeeded, and not at all if none has: it is never closed twice. This holds for every order of
  -- ticks, failures and successes, whatever happens to the tables and the cache in between.
  pub relist_loop-IsClosedOnce :
      (signals : List (Signal W)) (c : Cache) (s : LoopState) (w : W)
      → (relist_loop p table fuel now signals c w).0 ≡ some s
      → s.done_closes ≡ (if any_success s.results then 1 else 0)
  unfolding relist_loop
  relist_loop-IsClosedOnce signals c s w h =
      elim (Option-cases (run_relist p table fuel now c w).0) [
        | inl stuck ↦ absurd (cc (rw (relist_loop, eager_relist, stuck) at h))
        | inr ((success, (events, c')), relisted) ↦
            (loop_signals-IsClosedOnce signals _ s _ (close_done-eager success events c' c)
              (rw (relist_loop, eager_relist, relisted) at h)).1
      ]
