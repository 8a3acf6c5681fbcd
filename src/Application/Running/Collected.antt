-- ===== src/Application/Running/Collected.antt =====
-- The error that Run returns.
use rosa_hyperfleet_kube_app.Prelude.{
  String, Bool, true, false, ◌||◌, ◌≡◌, refl, ◌∙◌, ap, Option, none, some, List, [], ◌∷◌, arith,
}
use rosa_hyperfleet_kube_app.Base.{GoError, join, errors_join, error_any, chain_any}
use rosa_hyperfleet_kube_app.Application.Running.{
  RunState, returned, run_start, is_done, are_done, joined_errors, Reach,
}
use rosa_hyperfleet_kube_app.Application.Running.Invariant.{any_reported, reports, Reach-IsRun}

-- err != nil
abbrev pub is_error : Option GoError → Bool
is_error none = false
is_error (some e) = true

abbrev pub always : GoError → Bool
always e = true

is_error-errors_join :
    (a b : Option GoError) → is_error (errors_join a b) ≡ (is_error a || is_error b)
unfolding errors_join
is_error-errors_join none none = refl
is_error-errors_join none (some b) = refl
is_error-errors_join (some a) none = refl
is_error-errors_join (some a) (some b) = refl

-- A property of errors that no joined error has by itself, as errors.Is tests one with a target that is
-- no joined error.
module _ (p : GoError → Bool) (unjoined : (a b : GoError) → p (join a b) ≡ false) where
  error_any-errors_join :
      (a b : Option GoError) → error_any p (errors_join a b) ≡ (error_any p a || error_any p b)
  unfolding errors_join error_any chain_any
  error_any-errors_join none none = refl
  error_any-errors_join none (some b) = refl
  error_any-errors_join (some a) none = ground arith
  error_any-errors_join (some a) (some b) = rw (unjoined a b) refl

module _ (is_server_closed_value : GoError → Bool) where
  -- `m` is a test of an error or nil that goes through errors.Join, and `f` the test of an error.
  joined-reported :
      (m : Option GoError → Bool) (f : GoError → Bool)
      → m none ≡ false
      → ((e : GoError) → m (some e) ≡ f e)
      → ((a b : Option GoError) → m (errors_join a b) ≡ (m a || m b))
      → (errs : List (Option GoError))
      → m (joined_errors is_server_closed_value errs) ≡ any_reported is_server_closed_value f errs
  unfolding joined_errors
  joined-reported m f zero one both [] = zero
  joined-reported m f zero one both (none ∷ errs) = joined-reported m f zero one both errs
  joined-reported m f zero one both (some e ∷ errs) =
      both _ _ ∙ ground (arith, zero, one e, joined-reported m f zero one both errs)

  -- The error of Run against those that its goroutines sent.
  abbrev pub IsCollected : (GoError → Bool) → Option GoError → RunState → Type 0
  IsCollected p r t =
      (error_any p r ≡ reports is_server_closed_value (chain_any p) t)
      × (is_error r ≡ reports is_server_closed_value always t)
      × (is_done t.healthz_server ≡ true)
      × (is_done t.metrics_server ≡ true)
      × (are_done t.controllers ≡ true)

  -- When Run has returned, after whatever has happened in whatever order, every goroutine has ended, and
  -- errors.Is finds a target in Run's error exactly if it finds it in an error that one of the two
  -- servers or the leader election ended with and that is not ErrServerClosed; Run's error is nil
  -- exactly if there is no such error. The target must be no joined error.
  pub run-IsCollected :
      (p : GoError → Bool) (healthz metrics : String) (t : RunState) (r : Option GoError)
      → ((a b : GoError) → p (join a b) ≡ false)
      → Reach is_server_closed_value (run_start healthz metrics) t
      → t.place ≡ returned r
      → IsCollected p r t
  unfolding error_any
  run-IsCollected p healthz metrics t r unjoined reached back =
      let h = Reach-IsRun is_server_closed_value healthz metrics t reached in
      let (first, second, third) = h.finished (rw back refl) in
      let same : r ≡ joined_errors is_server_closed_value t.err_ch = rw back at h.result in
      (
        ap (error_any p) same
            ∙ joined-reported (error_any p) (chain_any p) refl (λ e. refl)
                (error_any-errors_join p unjoined) t.err_ch
            ∙ h.reported (chain_any p),
        ap is_error same
            ∙ joined-reported is_error always refl (λ e. refl) is_error-errors_join t.err_ch
            ∙ h.reported always,
        first,
        second,
        third,
      )
