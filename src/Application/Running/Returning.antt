-- ===== src/Application/Running/Returning.antt =====
-- Run returns once its servers and the leader election have come to an end.
use rosa_hyperfleet_kube_app.Prelude.{
  ℕ, zero, suc, String, ◌+◌, ◌<◌, Bool, true, false, ◌≡◌, ◌≢◌, refl, ◌⊎◌, inl, inr, Option, arith,
}
use rosa_hyperfleet_kube_app.Base.{GoError}
use rosa_hyperfleet_kube_app.Application.Running.{
  Server, absent, starting, serving, sending, ended, Controllers, controllers_running,
  controllers_leaving, controllers_sending, controllers_ended, Place, awaiting_context,
  awaiting_goroutines, shutting_down, returned, RunState, run_start, is_done, are_done, ServerStep,
  listens, cannot_listen, cannot_accept, refuses, closes, healthz_steps, metrics_steps,
  controllers_leave, caller_cancels, Own, healthz_sends, metrics_sends, controllers_cancel,
  controllers_send, context_done, goroutines_done, servers_shut_down, Step, own, outside, Reach,
}
use rosa_hyperfleet_kube_app.Application.Running.Invariant.{IsRun, Reach-IsRun, Step-IsRun}

-- ListenAndServe has not returned.
abbrev pub is_up : Server → Bool
is_up absent = false
is_up starting = true
is_up serving = true
is_up (sending why e) = false
is_up (ended why e) = false

-- The leader election has not ended.
abbrev pub are_up : Controllers → Bool
are_up controllers_running = true
are_up (controllers_leaving e) = false
are_up (controllers_sending e) = false
are_up (controllers_ended e) = false

-- The steps that are left.
abbrev server_work : Server → ℕ
server_work absent = 0
server_work starting = 3
server_work serving = 2
server_work (sending why e) = 1
server_work (ended why e) = 0

abbrev controllers_work : Controllers → ℕ
controllers_work controllers_running = 3
controllers_work (controllers_leaving e) = 2
controllers_work (controllers_sending e) = 1
controllers_work (controllers_ended e) = 0

abbrev place_work : Place → ℕ
place_work awaiting_context = 3
place_work awaiting_goroutines = 2
place_work (shutting_down r) = 1
place_work (returned r) = 0

abbrev cancel_work : Bool → ℕ
cancel_work true = 0
cancel_work false = 1

abbrev work : RunState → ℕ
work s =
    server_work s.healthz_server
    + server_work s.metrics_server
    + controllers_work s.controllers
    + place_work s.place
    + cancel_work s.cancelled

abbrev IsDown : RunState → Type 0
IsDown s =
    (is_up s.healthz_server ≡ false)
    × (is_up s.metrics_server ≡ false)
    × (are_up s.controllers ≡ false)

ServerStep-up : {place : Place} {x y : Server} → ServerStep place x y → is_up x ≡ true
ServerStep-up listens = refl
ServerStep-up (cannot_listen e) = refl
ServerStep-up (cannot_accept e) = refl
ServerStep-up (refuses e shut) = refl
ServerStep-up (closes e shut) = refl

module _ (is_server_closed_value : GoError → Bool) where
  -- Run returns, whatever steps are taken, as long as Run and its goroutines take one whenever they can.
  pub data MustReturn : RunState → Type 0 where
    back : (s : RunState) (r : Option GoError) → s.place ≡ returned r → MustReturn s
    goes_on :
        (s t : RunState)
        → Own is_server_closed_value s t
        → ((u : RunState) → Step is_server_closed_value s u → MustReturn u)
        → MustReturn s

  -- Every step that is possible when all is down leaves it down, with less left.
  Own-IsDown :
      {s t : RunState} → Own is_server_closed_value s t → IsDown s → IsDown t × (work t < work s)
  Own-IsDown {s} (healthz_sends why e at room) h = ((refl, h.1, h.2), ground (arith, at))
  Own-IsDown {s} (metrics_sends why e at room) h = ((h.0, refl, h.2), ground (arith, at))
  Own-IsDown {s} (controllers_cancel e at) h = ((h.0, h.1, refl), ground (arith, at))
  Own-IsDown {s} (controllers_send e at room) h = ((h.0, h.1, refl), ground (arith, at))
  Own-IsDown {s} (context_done at over) h = (h, ground (arith, at))
  Own-IsDown {s} (goroutines_done at healthz metrics controllers) h = (h, ground (arith, at))
  Own-IsDown {s} (servers_shut_down r at) h = (h, ground (arith, at))

  Step-IsDown :
      {s t : RunState} → Step is_server_closed_value s t → IsDown s → IsDown t × (work t < work s)
  Step-IsDown (own step) h = Own-IsDown step h
  Step-IsDown (outside (healthz_steps x step)) h = absurd (cc (ServerStep-up step, h.0))
  Step-IsDown (outside (metrics_steps x step)) h = absurd (cc (ServerStep-up step, h.1))
  Step-IsDown (outside (controllers_leave apply read elector at)) h = absurd (cc (rw at at h.2))
  Step-IsDown (outside (caller_cancels fresh)) h = (h, ground (arith, fresh))

  abbrev Goes : RunState → Type 0
  Goes s = (t : RunState) × Own is_server_closed_value s t

  from_place :
      (s : RunState) (place : Place)
      → s.place ≡ place
      → s.cancelled ≡ true
      → is_done s.healthz_server ≡ true
      → is_done s.metrics_server ≡ true
      → are_done s.controllers ≡ true
      → place_work place ≢ 0
      → Goes s
  from_place s awaiting_context at over healthz metrics controllers more = (_, context_done at over)
  from_place s awaiting_goroutines at over healthz metrics controllers more =
      (_, goroutines_done at healthz metrics controllers)
  from_place s (shutting_down r) at over healthz metrics controllers more =
      (_, servers_shut_down r at)
  from_place s (returned r) at over healthz metrics controllers more = absurd (more refl)

  from_controllers :
      (s : RunState) (c : Controllers)
      → IsRun is_server_closed_value s
      → s.controllers ≡ c
      → are_up c ≡ false
      → is_done s.healthz_server ≡ true
      → is_done s.metrics_server ≡ true
      → place_work s.place ≢ 0
      → Goes s
  from_controllers s controllers_running h at down healthz metrics more = absurd (cc down)
  from_controllers s (controllers_leaving e) h at down healthz metrics more =
      (_, controllers_cancel e at)
  from_controllers s (controllers_sending e) h at down healthz metrics more =
      (_, controllers_send e at (ground (arith, at, h.counted)))
  from_controllers s (controllers_ended e) h at down healthz metrics more =
      from_place s s.place refl (h.told (rw at refl)) healthz metrics (rw at refl) more

  from_metrics :
      (s : RunState) (x : Server)
      → IsRun is_server_closed_value s
      → s.metrics_server ≡ x
      → is_up x ≡ false
      → are_up s.controllers ≡ false
      → is_done s.healthz_server ≡ true
      → place_work s.place ≢ 0
      → Goes s
  from_metrics s absent h at down controllers healthz more =
      from_controllers s s.controllers h refl controllers healthz (rw at refl) more
  from_metrics s starting h at down controllers healthz more = absurd (cc down)
  from_metrics s serving h at down controllers healthz more = absurd (cc down)
  from_metrics s (sending why e) h at down controllers healthz more =
      (_, metrics_sends why e at (ground (arith, at, h.counted)))
  from_metrics s (ended why e) h at down controllers healthz more =
      from_controllers s s.controllers h refl controllers healthz (rw at refl) more

  from_healthz :
      (s : RunState) (x : Server)
      → IsRun is_server_closed_value s
      → s.healthz_server ≡ x
      → is_up x ≡ false
      → is_up s.metrics_server ≡ false
      → are_up s.controllers ≡ false
      → place_work s.place ≢ 0
      → Goes s
  from_healthz s absent h at down metrics controllers more =
      from_metrics s s.metrics_server h refl metrics controllers (rw at refl) more
  from_healthz s starting h at down metrics controllers more = absurd (cc down)
  from_healthz s serving h at down metrics controllers more = absurd (cc down)
  from_healthz s (sending why e) h at down metrics controllers more =
      (_, healthz_sends why e at (ground (arith, at, h.counted)))
  from_healthz s (ended why e) h at down metrics controllers more =
      from_metrics s s.metrics_server h refl metrics controllers (rw at refl) more

  is_back :
      (s : RunState) (place : Place)
      → s.place ≡ place
      → (place_work s.place ≢ 0) ⊎ ((r : Option GoError) × (s.place ≡ returned r))
  is_back s awaiting_context at = inl (λ z. absurd (cc (rw at at z)))
  is_back s awaiting_goroutines at = inl (λ z. absurd (cc (rw at at z)))
  is_back s (shutting_down r) at = inl (λ z. absurd (cc (rw at at z)))
  is_back s (returned r) at = inr (r, at)

  must_return :
      (n : ℕ) (s : RunState) → IsRun is_server_closed_value s → IsDown s → work s < n → MustReturn s
  must_return zero s h down enough = absurd (omega (arith, enough))
  must_return (suc n) s h down enough = elim (is_back s s.place refl) [
    | inr (r, at) ↦ back s r at
    | inl more ↦
        let (t, step) = from_healthz s s.healthz_server h refl down.0 down.1 down.2 more in
        goes_on s t step (λ u next_step.
          let (still, less) = Step-IsDown next_step down in
          must_return n u (Step-IsRun is_server_closed_value next_step h) still
            (omega (arith, enough, less)))
  ]

  -- Once neither server is up any more, because it was never started or its ListenAndServe has returned,
  -- and the leader election has ended, Run returns, whatever happened before: in every such state
  -- that has not returned Run or a goroutine of it can go on, none of them waits for ever to send, and
  -- every run of steps ends in a state where Run has returned.
  pub stopped-MustReturn :
      (healthz metrics : String) (s : RunState)
      → Reach is_server_closed_value (run_start healthz metrics) s
      → is_up s.healthz_server ≡ false
      → is_up s.metrics_server ≡ false
      → are_up s.controllers ≡ false
      → MustReturn s
  stopped-MustReturn healthz metrics s reached first second third =
      must_return (suc (work s)) s (Reach-IsRun is_server_closed_value healthz metrics s reached)
        (first, second, third) (omega arith)
