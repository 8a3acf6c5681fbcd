-- ===== src/Application/Running/Served.antt =====
-- What becomes of the servers of Run.
use rosa_hyperfleet_kube_app.Prelude.{String, Bool, true, false, ◌≡◌, ◌⊎◌, inl, inr, Bool-cases}
use rosa_hyperfleet_kube_app.Base.{GoError}
use rosa_hyperfleet_kube_app.Application.Running.{RunState, run_start, is_done, is_shut_down, Reach}
use rosa_hyperfleet_kube_app.Application.Running.Invariant.{is_closed, Reach-IsRun}

-- Shutdown has ended no server, and Run has not begun to shut down while a server has not ended.
abbrev pub IsUnstopped : RunState → Type 0
IsUnstopped s =
    (is_closed s.healthz_server ≡ false)
    × (is_closed s.metrics_server ≡ false)
    × ((is_shut_down s.place ≡ false)
        ⊎ ((is_done s.healthz_server ≡ true) × (is_done s.metrics_server ≡ true)))

module _ (is_server_closed_value : GoError → Bool) where
  -- Whatever happens in whatever order from the start of Run, the caller's cancellation and the end of
  -- the leader election included, no ListenAndServe returns because of Shutdown; and Run
  -- neither shuts its servers down nor returns until each server that was started has ended by an
  -- error of its own, one of listening or of accepting.
  pub Reach-IsUnstopped :
      (healthz metrics : String) (t : RunState)
      → Reach is_server_closed_value (run_start healthz metrics) t
      → IsUnstopped t
  Reach-IsUnstopped healthz metrics t r =
      let h = Reach-IsRun is_server_closed_value healthz metrics t r in
      elim (Bool-cases (is_shut_down t.place)) [
        | inl shut ↦
            let (first, second, third) = h.finished shut in
            (h.unclosed.0, h.unclosed.1, inr (first, second))
        | inr unshut ↦ (h.unclosed.0, h.unclosed.1, inl unshut)
      ]
