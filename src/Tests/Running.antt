-- ===== src/Tests/Running.antt =====
-- Runs of the kube-applier with and without its servers.
use rosa_hyperfleet_kube_app.Prelude.{
  Bool, true, false, ◌≡◌, refl, none, some, [], ◌∷◌, length, string_eq, arith,
}
use rosa_hyperfleet_kube_app.Base.{GoError, plain, join, chain_any, errors_join}
use rosa_hyperfleet_kube_app.Application.Running.{
  RunState, on_listen, serving, sending, ended, controllers_leaving, controllers_ended, returned,
  run_start, joined_errors, run_controllers, listens, cannot_listen, healthz_steps,
  controllers_leave, caller_cancels, healthz_sends, controllers_cancel, controllers_send,
  context_done, goroutines_done, servers_shut_down, own, outside, Reach, here, next, healthz,
  on_started_leading,
}
use rosa_hyperfleet_kube_app.Application.Running.Collected.{run-IsCollected, IsCollected}
use rosa_hyperfleet_kube_app.Application.Running.Returning.{stopped-MustReturn, MustReturn}
use rosa_hyperfleet_kube_app.Application.Running.Served.{Reach-IsUnstopped, IsUnstopped}

-- ErrServerClosed is the error with this text.
abbrev closed_value : GoError → Bool
closed_value (plain s) = string_eq.beq s "http: Server closed"
closed_value _ = false

-- The health server listens, and a signal cancels the context.
abbrev both : RunState
both = run_start ":8083" ":8081"

abbrev signalled : RunState
signalled = record both { healthz_server = serving; cancelled = true }

signalled_reached : Reach closed_value both signalled
unfolding run_start
signalled_reached =
    next (next here (outside (healthz_steps serving listens))) (outside (caller_cancels refl))

Reach-IsUnstopped_example : IsUnstopped signalled
Reach-IsUnstopped_example =
    Reach-IsUnstopped closed_value ":8083" ":8081" signalled signalled_reached

-- A health server that cannot listen, no metrics server, and a leader election that ends.
abbrev one : RunState
one = run_start ":8083" ""

abbrev bind_error : GoError
bind_error = plain "bind: address already in use"

abbrev failed : RunState
failed = record one {
  healthz_server = sending on_listen bind_error;
  controllers = controllers_leaving none;
}

failed_reached : Reach closed_value one failed
unfolding run_start run_controllers
failed_reached =
    next
      (next here
        (outside (healthz_steps (sending on_listen bind_error) (cannot_listen bind_error))))
      (outside (controllers_leave none none none refl))

stopped-MustReturn_example : MustReturn closed_value failed
unfolding run_start
stopped-MustReturn_example =
    stopped-MustReturn closed_value ":8083" "" failed failed_reached refl refl refl

abbrev sent : RunState
sent = record one {
  healthz_server = ended on_listen bind_error;
  controllers = controllers_ended none;
  cancelled = true;
  err_ch = some bind_error ∷ none ∷ [];
}

abbrev over : RunState
over = record sent { place = returned (some bind_error) }

run_ends : Reach closed_value one over
unfolding run_start joined_errors chain_any errors_join run_controllers
run_ends =
    next
      (next
        (next
          (next
            (next
              (next failed_reached (own (healthz_sends on_listen bind_error refl (omega arith))))
              (own (controllers_cancel none refl)))
            (own (controllers_send none refl (omega arith))))
          (own (context_done refl refl)))
        (own (goroutines_done refl refl refl refl)))
      (own (servers_shut_down (some bind_error) refl))

unjoined : (a b : GoError) → closed_value (join a b) ≡ false
unjoined a b = refl

run-IsCollected_example : IsCollected closed_value closed_value (some bind_error) over
run-IsCollected_example =
    run-IsCollected closed_value closed_value ":8083" "" over (some bind_error) unjoined run_ends
      refl

healthz_answers : healthz (some bind_error) ≡ record { status_code = 503; health_gauge = 0 }
unfolding healthz
healthz_answers = refl

abort_without_sync : length (on_started_leading false) ≡ 1
unfolding on_started_leading
abort_without_sync = refl
