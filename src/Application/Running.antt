-- ===== src/Application/Running.antt =====
-- pkg/app/kube_applier.go: Run, with its servers, the controllers and their errors. The goroutines are
-- steps on Run's state in any order. The servers are net/http's.
pub mod Invariant
pub mod Collected
pub mod Returning
pub mod Served
use rosa_hyperfleet_kube_app.Prelude.{
  ℕ, ◌<◌, String, Bool, true, false, ◌≡◌, Option, none, some, List, [], ◌∷◌, ◌++◌, length, ◌==◌,
  string_eq, if◌then◌else◌,
}
use rosa_hyperfleet_kube_app.Base.{GoError, wrap, errors_join, chain_any}

-- The answer of /healthz and the health gauge that it sets, from electionChecker.Check.
pub record HealthAnswer : Type 0 where
  pub status_code : ℕ
  pub health_gauge : ℕ

unfoldable pub healthz : Option GoError → HealthAnswer
healthz none = record { status_code = 200; health_gauge = 1 }
healthz (some e) = record { status_code = 503; health_gauge = 0 }

-- What OnStartedLeading starts, from whether the caches have synced.
pub data Started : Type 0 where
  informers_run : Started
  apply_controller_run : ℕ → Started
  read_manager_run : ℕ → Started

abbrev pub threads_apply : ℕ
threads_apply = 4

abbrev pub threads_read_manager : ℕ
threads_read_manager = 1

unfoldable pub on_started_leading : Bool → List Started
on_started_leading synced =
    if synced
    then informers_run
      ∷ apply_controller_run threads_apply
      ∷ read_manager_run threads_read_manager
      ∷ []
    else informers_run ∷ []

-- The error of runControllersUnderLeaderElection, from those of the two constructors and of
-- NewLeaderElector; le.Run has none.
abbrev elector_error : Option GoError → Option GoError
elector_error e = e

unfoldable pub run_controllers : Option GoError → Option GoError → Option GoError → Option GoError
run_controllers (some e) read elector = some (wrap "apply controller" e)
run_controllers none (some e) elector = some (wrap "read manager" e)
run_controllers none none elector = elector_error elector

-- Why ListenAndServe returned: it could not listen, a call of Accept failed, or Shutdown was called.
pub data Ending : Type 0 where
  on_listen on_accept on_shutdown : Ending

-- The goroutine of a server of net/http; it is absent when the address is empty. ListenAndServe always
-- returns an error, which the goroutine sends before it ends.
pub data Server : Type 0 where
  absent starting serving : Server
  sending ended : Ending → GoError → Server

-- The goroutine of the leader election, with the error of runControllersUnderLeaderElection.
pub data Controllers : Type 0 where
  controllers_running : Controllers
  controllers_leaving controllers_sending controllers_ended : Option GoError → Controllers

pub data Place : Type 0 where
  -- <-ctx.Done(), then wg.Wait()
  awaiting_context awaiting_goroutines : Place
  -- the deferred calls, and the caller
  shutting_down returned : Option GoError → Place

pub record RunState : Type 0 where
  pub healthz_server : Server
  pub metrics_server : Server
  pub controllers : Controllers
  pub cancelled : Bool
  pub err_ch : List (Option GoError)
  pub place : Place

-- make(chan error, 3): a goroutine that sends to a full channel waits.
abbrev pub err_ch_capacity : ℕ
err_ch_capacity = 3

abbrev server_for : String → Server
server_for address = if address == "" then absent else starting

-- Up to `<-ctx.Done()`, from the two addresses.
unfoldable pub run_start : String → String → RunState
run_start healthz_address metrics_address = record {
  healthz_server = server_for healthz_address;
  metrics_server = server_for metrics_address;
  controllers = controllers_running;
  cancelled = false;
  err_ch = [];
  place = awaiting_context;
}

-- A goroutine that calls wg.Done() has ended.
abbrev pub is_done : Server → Bool
is_done absent = true
is_done starting = false
is_done serving = false
is_done (sending why e) = false
is_done (ended why e) = true

abbrev pub are_done : Controllers → Bool
are_done controllers_running = false
are_done (controllers_leaving e) = false
are_done (controllers_sending e) = false
are_done (controllers_ended e) = true

abbrev pub is_shut_down : Place → Bool
is_shut_down awaiting_context = false
is_shut_down awaiting_goroutines = false
is_shut_down (shutting_down r) = true
is_shut_down (returned r) = true

-- What becomes of ListenAndServe; Shutdown is called once Run shuts down.
pub data ServerStep (place : Place) : Server → Server → Type 0 where
  listens : ServerStep place starting serving
  cannot_listen : (e : GoError) → ServerStep place starting (sending on_listen e)
  cannot_accept : (e : GoError) → ServerStep place serving (sending on_accept e)
  refuses :
      (e : GoError) → is_shut_down place ≡ true → ServerStep place starting (sending on_shutdown e)
  closes :
      (e : GoError) → is_shut_down place ≡ true → ServerStep place serving (sending on_shutdown e)

-- What the servers, the leader election and the caller do, which may never come.
pub data Outside (s : RunState) : RunState → Type 0 where
  healthz_steps :
      (x : Server)
      → ServerStep s.place s.healthz_server x
      → Outside s (record s { healthz_server = x })
  metrics_steps :
      (x : Server)
      → ServerStep s.place s.metrics_server x
      → Outside s (record s { metrics_server = x })
  controllers_leave :
      (apply read elector : Option GoError)
      → s.controllers ≡ controllers_running
      → Outside s
          (record s { controllers = controllers_leaving (run_controllers apply read elector) })
  caller_cancels : s.cancelled ≡ false → Outside s (record s { cancelled = true })

module _ (is_server_closed_value : GoError → Bool) where
  -- errors.Is(err, http.ErrServerClosed)
  abbrev pub is_server_closed : GoError → Bool
  is_server_closed = chain_any is_server_closed_value

  -- The loop over errCh, and errors.Join(errs...).
  unfoldable pub joined_errors : List (Option GoError) → Option GoError
  joined_errors [] = none
  joined_errors (none ∷ errs) = joined_errors errs
  joined_errors (some e ∷ errs) =
      errors_join (if is_server_closed e then none else some e) (joined_errors errs)

  -- What Run and its goroutines do as soon as they can.
  pub data Own (s : RunState) : RunState → Type 0 where
    healthz_sends :
        (why : Ending) (e : GoError)
        → s.healthz_server ≡ sending why e
        → length s.err_ch < err_ch_capacity
        → Own s (record s { healthz_server = ended why e; err_ch = s.err_ch ++ (some e ∷ []) })
    metrics_sends :
        (why : Ending) (e : GoError)
        → s.metrics_server ≡ sending why e
        → length s.err_ch < err_ch_capacity
        → Own s (record s { metrics_server = ended why e; err_ch = s.err_ch ++ (some e ∷ []) })
    -- cancel(fmt.Errorf("leader election exited"))
    controllers_cancel :
        (e : Option GoError)
        → s.controllers ≡ controllers_leaving e
        → Own s (record s { controllers = controllers_sending e; cancelled = true })
    controllers_send :
        (e : Option GoError)
        → s.controllers ≡ controllers_sending e
        → length s.err_ch < err_ch_capacity
        → Own s (record s { controllers = controllers_ended e; err_ch = s.err_ch ++ (e ∷ []) })
    context_done :
        s.place ≡ awaiting_context
        → s.cancelled ≡ true
        → Own s (record s { place = awaiting_goroutines })
    goroutines_done :
        s.place ≡ awaiting_goroutines
        → is_done s.healthz_server ≡ true
        → is_done s.metrics_server ≡ true
        → are_done s.controllers ≡ true
        → Own s (record s { place = shutting_down (joined_errors s.err_ch) })
    servers_shut_down :
        (r : Option GoError) → s.place ≡ shutting_down r → Own s (record s { place = returned r })

  pub data Step (s t : RunState) : Type 0 where
    own : Own s t → Step s t
    outside : Outside s t → Step s t

  pub data Reach (s : RunState) : RunState → Type 0 where
    here : Reach s s
    next : {t u : RunState} → Reach s t → Step t u → Reach s u
