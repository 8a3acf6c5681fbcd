-- ===== src/Application/Running/Invariant.antt =====
-- What holds of Run and its goroutines at every step.
use rosa_hyperfleet_kube_app.Prelude.{
  ℕ, String, ◌+◌, Bool, true, false, not, ◌&&◌, ◌||◌, ◌≡◌, refl, Option, none, some, List, [], ◌∷◌,
  ◌++◌, length, length-append, arith,
}
use rosa_hyperfleet_kube_app.Base.{GoError}
use rosa_hyperfleet_kube_app.Application.Running.{
  Ending, on_shutdown, Server, sending, ended, Controllers, controllers_running,
  controllers_leaving, controllers_sending, controllers_ended, Place, awaiting_context,
  awaiting_goroutines, shutting_down, returned, RunState, run_start, is_done, are_done,
  is_shut_down, is_server_closed, joined_errors, ServerStep, listens, cannot_listen, cannot_accept,
  refuses, closes, Outside, healthz_steps, metrics_steps, controllers_leave, caller_cancels, Own,
  healthz_sends, metrics_sends, controllers_cancel, controllers_send, context_done, goroutines_done,
  servers_shut_down, Step, own, outside, Reach, here, next,
}

-- The errors that a goroutine has sent.
abbrev server_sent : Server → ℕ
server_sent (ended why e) = 1
server_sent _ = 0

abbrev controllers_sent : Controllers → ℕ
controllers_sent (controllers_ended e) = 1
controllers_sent _ = 0

abbrev pub errors_sent : RunState → ℕ
errors_sent s =
    server_sent s.healthz_server + server_sent s.metrics_server + controllers_sent s.controllers

abbrev is_by_shutdown : Ending → Bool
is_by_shutdown on_shutdown = true
is_by_shutdown _ = false

-- ListenAndServe has returned because of Shutdown.
abbrev pub is_closed : Server → Bool
is_closed (sending why e) = is_by_shutdown why
is_closed (ended why e) = is_by_shutdown why
is_closed _ = false

-- The leader election's goroutine has called cancel.
abbrev have_cancelled : Controllers → Bool
have_cancelled controllers_running = false
have_cancelled (controllers_leaving e) = false
have_cancelled (controllers_sending e) = true
have_cancelled (controllers_ended e) = true

module _ (is_server_closed_value : GoError → Bool) where
  -- An error that is not ErrServerClosed and has the property.
  abbrev pub is_reported : (GoError → Bool) → GoError → Bool
  is_reported f e = not (is_server_closed is_server_closed_value e) && f e

  abbrev pub maybe_reported : (GoError → Bool) → Option GoError → Bool
  maybe_reported f none = false
  maybe_reported f (some e) = is_reported f e

  abbrev pub any_reported : (GoError → Bool) → List (Option GoError) → Bool
  any_reported f [] = false
  any_reported f (e ∷ errs) = maybe_reported f e || any_reported f errs

  any_reported-append :
      (f : GoError → Bool) (errs : List (Option GoError)) (e : Option GoError)
      → any_reported f (errs ++ (e ∷ [])) ≡ (any_reported f errs || maybe_reported f e)
  any_reported-append f [] e = ground arith
  any_reported-append f (x ∷ errs) e = ground (arith, any_reported-append f errs e)

  -- The same of the goroutines, whatever the channel holds.
  abbrev server_reports : (GoError → Bool) → Server → Bool
  server_reports f (ended why e) = is_reported f e
  server_reports f _ = false

  abbrev controllers_report : (GoError → Bool) → Controllers → Bool
  controllers_report f (controllers_ended e) = maybe_reported f e
  controllers_report f _ = false

  abbrev pub reports : (GoError → Bool) → RunState → Bool
  reports f s =
      server_reports f s.healthz_server
      || (server_reports f s.metrics_server || controllers_report f s.controllers)

  abbrev HasResult : Place → List (Option GoError) → Type 0
  HasResult (shutting_down r) errs = r ≡ joined_errors is_server_closed_value errs
  HasResult (returned r) errs = r ≡ joined_errors is_server_closed_value errs
  HasResult _ errs = Unit

  pub record IsRun (s : RunState) : Type 0 where
    pub counted : length s.err_ch ≡ errors_sent s
    pub reported : (f : GoError → Bool) → any_reported f s.err_ch ≡ reports f s
    pub told : have_cancelled s.controllers ≡ true → s.cancelled ≡ true
    pub unclosed : (is_closed s.healthz_server ≡ false) × (is_closed s.metrics_server ≡ false)
    pub finished :
        is_shut_down s.place ≡ true
        → (is_done s.healthz_server ≡ true)
          × (is_done s.metrics_server ≡ true)
          × (are_done s.controllers ≡ true)
    pub result : HasResult s.place s.err_ch

  run_start-IsRun : (healthz metrics : String) → IsRun (run_start healthz metrics)
  unfolding run_start
  run_start-IsRun healthz metrics = record {
    counted = ground arith;
    reported = λ f. ground arith;
    told = λ h. absurd (cc h);
    unclosed = (ground arith, ground arith);
    finished = λ h. absurd (cc h);
    result = tt;
  }

  open_result :
      (place : Place) (errs : List (Option GoError))
      → is_shut_down place ≡ false
      → HasResult place errs
  open_result awaiting_context errs still_open = tt
  open_result awaiting_goroutines errs still_open = tt
  open_result (shutting_down r) errs still_open = absurd (cc still_open)
  open_result (returned r) errs still_open = absurd (cc still_open)

  still_open : (b c : Bool) → (b ≡ true → c ≡ true) → c ≡ false → b ≡ false
  still_open true c h open_still = absurd (cc (h refl, open_still))
  still_open false c h open_still = refl

  -- Run waits for each of its goroutines.
  open_by_healthz :
      (s : RunState) → IsRun s → is_done s.healthz_server ≡ false → is_shut_down s.place ≡ false
  open_by_healthz s h = still_open _ _ (λ shut. (h.finished shut).0)

  open_by_metrics :
      (s : RunState) → IsRun s → is_done s.metrics_server ≡ false → is_shut_down s.place ≡ false
  open_by_metrics s h = still_open _ _ (λ shut. (h.finished shut).1)

  open_by_controllers :
      (s : RunState) → IsRun s → are_done s.controllers ≡ false → is_shut_down s.place ≡ false
  open_by_controllers s h = still_open _ _ (λ shut. (h.finished shut).2)

  Own-IsRun : {s t : RunState} → Own is_server_closed_value s t → IsRun s → IsRun t
  Own-IsRun {s} (healthz_sends why e at room) h =
      let unshut = open_by_healthz s h (rw at refl) in
      record {
        counted = ground (arith, at, length-append s.err_ch (some e ∷ []), h.counted);
        reported = λ f. ground (arith, at, any_reported-append f s.err_ch (some e), h.reported f);
        told = h.told;
        unclosed = (rw at at h.unclosed.0, h.unclosed.1);
        finished = λ shut. absurd (cc (unshut, shut));
        result = open_result s.place _ unshut;
      }
  Own-IsRun {s} (metrics_sends why e at room) h =
      let unshut = open_by_metrics s h (rw at refl) in
      record {
        counted = ground (arith, at, length-append s.err_ch (some e ∷ []), h.counted);
        reported = λ f. ground (arith, at, any_reported-append f s.err_ch (some e), h.reported f);
        told = h.told;
        unclosed = (h.unclosed.0, rw at at h.unclosed.1);
        finished = λ shut. absurd (cc (unshut, shut));
        result = open_result s.place _ unshut;
      }
  Own-IsRun {s} (controllers_cancel e at) h =
      let unshut = open_by_controllers s h (rw at refl) in
      record {
        counted = ground (arith, at, h.counted);
        reported = λ f. ground (arith, at, h.reported f);
        told = λ left. refl;
        unclosed = h.unclosed;
        finished = λ shut. absurd (cc (unshut, shut));
        result = open_result s.place _ unshut;
      }
  Own-IsRun {s} (controllers_send e at room) h =
      let unshut = open_by_controllers s h (rw at refl) in
      record {
        counted = ground (arith, at, length-append s.err_ch (e ∷ []), h.counted);
        reported = λ f. ground (arith, at, any_reported-append f s.err_ch e, h.reported f);
        told = λ left. h.told (rw at refl);
        unclosed = h.unclosed;
        finished = λ shut. absurd (cc (unshut, shut));
        result = open_result s.place _ unshut;
      }
  Own-IsRun {s} (context_done at over) h = record {
    counted = h.counted;
    reported = h.reported;
    told = h.told;
    unclosed = h.unclosed;
    finished = λ shut. absurd (cc shut);
    result = tt;
  }
  Own-IsRun {s} (goroutines_done at healthz metrics controllers) h = record {
    counted = h.counted;
    reported = h.reported;
    told = h.told;
    unclosed = h.unclosed;
    finished = λ shut. (healthz, metrics, controllers);
    result = refl;
  }
  Own-IsRun {s} (servers_shut_down r at) h = record {
    counted = h.counted;
    reported = h.reported;
    told = h.told;
    unclosed = h.unclosed;
    finished = λ shut. h.finished (rw at refl);
    result = rw at at h.result;
  }

  -- A server that has not sent its error is none of the done ones, before it steps and after.
  ServerStep-open :
      {place : Place} {x y : Server}
      → ServerStep place x y
      → (is_done x ≡ false)
        × (is_done y ≡ false)
        × (server_sent y ≡ server_sent x)
        × ((f : GoError → Bool) → server_reports f y ≡ server_reports f x)
  ServerStep-open listens = (refl, refl, refl, λ f. refl)
  ServerStep-open (cannot_listen e) = (refl, refl, refl, λ f. refl)
  ServerStep-open (cannot_accept e) = (refl, refl, refl, λ f. refl)
  ServerStep-open (refuses e shut) = (refl, refl, refl, λ f. refl)
  ServerStep-open (closes e shut) = (refl, refl, refl, λ f. refl)

  ServerStep-unclosed :
      {place : Place} {x y : Server}
      → ServerStep place x y
      → is_shut_down place ≡ false
      → is_closed y ≡ false
  ServerStep-unclosed listens unshut = refl
  ServerStep-unclosed (cannot_listen e) unshut = refl
  ServerStep-unclosed (cannot_accept e) unshut = refl
  ServerStep-unclosed (refuses e shut) unshut = absurd (cc (shut, unshut))
  ServerStep-unclosed (closes e shut) unshut = absurd (cc (shut, unshut))

  Outside-IsRun : {s t : RunState} → Outside s t → IsRun s → IsRun t
  Outside-IsRun {s} (healthz_steps x step) h =
      let (before, after, sent, same) = ServerStep-open step in
      let unshut = open_by_healthz s h before in
      record {
        counted = rw sent h.counted;
        reported = λ f. rw (same f) (h.reported f);
        told = h.told;
        unclosed = (ServerStep-unclosed step unshut, h.unclosed.1);
        finished = λ shut. absurd (cc (unshut, shut));
        result = h.result;
      }
  Outside-IsRun {s} (metrics_steps x step) h =
      let (before, after, sent, same) = ServerStep-open step in
      let unshut = open_by_metrics s h before in
      record {
        counted = rw sent h.counted;
        reported = λ f. rw (same f) (h.reported f);
        told = h.told;
        unclosed = (h.unclosed.0, ServerStep-unclosed step unshut);
        finished = λ shut. absurd (cc (unshut, shut));
        result = h.result;
      }
  Outside-IsRun {s} (controllers_leave apply read elector at) h =
      let unshut = open_by_controllers s h (rw at refl) in
      record {
        counted = ground (arith, at, h.counted);
        reported = λ f. ground (arith, at, h.reported f);
        told = λ left. absurd (cc left);
        unclosed = h.unclosed;
        finished = λ shut. absurd (cc (unshut, shut));
        result = h.result;
      }
  Outside-IsRun {s} (caller_cancels fresh) h = record {
    counted = h.counted;
    reported = h.reported;
    told = λ left. refl;
    unclosed = h.unclosed;
    finished = h.finished;
    result = h.result;
  }

  pub Step-IsRun : {s t : RunState} → Step is_server_closed_value s t → IsRun s → IsRun t
  Step-IsRun (own step) h = Own-IsRun step h
  Step-IsRun (outside step) h = Outside-IsRun step h

  from_IsRun : {s t : RunState} → IsRun s → Reach is_server_closed_value s t → IsRun t
  from_IsRun h here = h
  from_IsRun h (next r step) = Step-IsRun step (from_IsRun h r)

  pub Reach-IsRun :
      (healthz metrics : String) (t : RunState)
      → Reach is_server_closed_value (run_start healthz metrics) t
      → IsRun t
  Reach-IsRun healthz metrics t r = from_IsRun (run_start-IsRun healthz metrics) r
