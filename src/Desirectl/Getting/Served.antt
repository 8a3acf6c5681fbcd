-- ===== src/Desirectl/Getting/Served.antt =====
-- The wait for the status of a read desire gives the status, if one comes in time.
use rosa_hyperfleet_kube_app.Prelude.{
  ℕ, zero, suc, ◌+◌, ◌*◌, ◌≤◌, ◌<◌, String, ◌≡◌, ◌⊎◌, refl, ap, ◌∙◌, inl, inr, true, false, ◌||◌,
  some, List, [], ◌∷◌, ltb, arith, Bool-cases,
}
use rosa_hyperfleet_kube_app.Base.{GoError, Result, ok, err, is_not_found_error}
use rosa_hyperfleet_kube_app.Api.{ReadDesire, ReadDesireStatus, Condition}
use rosa_hyperfleet_kube_app.Database.Client.{ResourceCrud}
use rosa_hyperfleet_kube_app.Desirectl.Getting.{
  Clock, is_fresh, has_content, read_result, next_interval, poll, poll_read_desire_status,
}
use rosa_hyperfleet_kube_app.Desirectl.Getting.Awaited.{
  IsObserved, poll_read_desire_status-IsObserved, IsClock, IsUnfailed, poll-IsSome,
}

-- A read takes at most `slow`. Before the time `due` it returns ErrNotFound or a status that reports no
-- failure; from then on, a status that reports none and that is fresh or has content.
pub record IsServed {W : Type 0} (clock : Clock W) (status : ResourceCrud W ReadDesire)
    (doc_id : String) (after_time due slow : ℕ) : Type 0 where
  pub get-slow : (w : W) → clock.now (status.get doc_id w).1 ≤ clock.now w + slow
  pub early :
      (w : W)
      → clock.now w < due
      → ((e : GoError) × ((status.get doc_id w).0 ≡ err e) × (is_not_found_error (some e) ≡ true))
        ⊎ ((d : ReadDesire) × ((status.get doc_id w).0 ≡ ok d) × IsUnfailed d.status.conditions)
  pub timely :
      (w : W)
      → due ≤ clock.now w
      → (d : ReadDesire) × ((status.get doc_id w).0 ≡ ok d)
        × ((is_fresh after_time d.status || has_content d.status.kube_content) ≡ true)
        × IsUnfailed d.status.conditions

read_result-unfailed :
    (conditions : List Condition) (s : ReadDesireStatus)
    → IsUnfailed conditions
    → read_result conditions s ≡ ok s
read_result-unfailed [] s h = refl
read_result-unfailed (c ∷ conditions) s h = rw h.0 (read_result-unfailed conditions s h.1)

not_late : (a b : ℕ) → b ≤ a → ltb a b ≡ false
not_late a b h = ground arith

due-cases : (a b : ℕ) → (a < b) ⊎ (b ≤ a)
due-cases a b = elim (Bool-cases (ltb a b)) [
  | inl early ↦ inl (ground arith)
  | inr timely ↦ inr (ground arith)
]

module _ {W : Type 0} (clock : Clock W) (status : ResourceCrud W ReadDesire) (doc_id : String)
    (after_time deadline due slow : ℕ) (law : IsServed clock status doc_id after_time due slow)
    (soon : due + slow ≤ deadline) where
  shown :
      (fuel interval : ℕ) (w : W) (r : Result ReadDesireStatus) (d : ReadDesire)
      → (status.get doc_id w).0 ≡ ok d
      → (is_fresh after_time d.status || has_content d.status.kube_content) ≡ true
      → IsUnfailed d.status.conditions
      → (poll clock status doc_id after_time deadline (suc fuel) interval w).0 ≡ some r
      → (s : ReadDesireStatus) × (r ≡ ok s)
  unfolding poll
  shown fuel interval w r d found seen fine h =
      let same : some (read_result d.status.conditions d.status) ≡ some r =
        rw (poll, found, seen) at h in
      (d.status, cc (same, read_result-unfailed d.status.conditions d.status fine))

  -- Whatever the wait returns, it is a status.
  poll-ok :
      (fuel interval : ℕ) (w : W) (r : Result ReadDesireStatus)
      → (poll clock status doc_id after_time deadline fuel interval w).0 ≡ some r
      → (s : ReadDesireStatus) × (r ≡ ok s)
  unfolding poll
  poll-ok zero interval w r h = absurd (cc h)
  poll-ok (suc fuel) interval w r h =
      let w' = (status.get doc_id w).1 in
      let again = poll-ok fuel (next_interval interval) (clock.sleep interval w') r in
      elim (due-cases (clock.now w) due) [
        | inl before ↦
            let early =
              not_late deadline (clock.now w') (omega (arith, law.get-slow w, soon, before)) in
            elim (law.early w before) [
              | inl (e, failed, missing) ↦ again (rw (poll, failed, missing, early) at h)
              | inr (d, found, fine) ↦
                  elim (Bool-cases
                    (is_fresh after_time d.status || has_content d.status.kube_content)) [
                      | inl seen ↦ shown fuel interval w r d found seen fine h
                      | inr stale ↦ again (rw (poll, found, stale, early) at h)
                    ]
            ]
        | inr timely ↦
            let (d, found, seen, fine) = law.timely w timely in
            shown fuel interval w r d found seen fine h
      ]

-- If a good status comes in time, the wait returns a status that a read of the document returned and that
-- the tool may show, with one pass for each 200 milliseconds of
-- the timeout and two more. Good means from the time `due` on that every read of the document returns
-- a status that reports no failure and that is fresh or has content; before, a read may find no
-- document or an older status that reports no failure. In time means that `due` and the time
-- that a read takes at most are within the timeout. The clock is as for the end of the wait.
pub poll_read_desire_status_serves :
    {W : Type 0} (clock : Clock W) (status : ResourceCrud W ReadDesire) (doc_id : String)
    (after_time timeout fuel due slow : ℕ) (w : W)
    → IsClock clock status
    → timeout < fuel * 200
    → IsServed clock status doc_id after_time due slow
    → due + slow ≤ clock.now w + timeout
    → (s : ReadDesireStatus) × ((poll_read_desire_status clock status doc_id after_time timeout
          (suc fuel)
          w).0
        ≡ some (ok s))
      × IsObserved status doc_id after_time s
unfolding poll_read_desire_status
poll_read_desire_status_serves clock status doc_id after_time timeout fuel due slow w law enough
      served soon =
    let deadline = clock.now w + timeout in
    let (r, done) =
      poll-IsSome clock status doc_id after_time deadline law fuel 200 w (omega arith)
        (omega (arith, enough)) in
    let (s, good) =
      poll-ok clock status doc_id after_time deadline due slow served soon (suc fuel) 200 w r
        done in
    let shown = done ∙ ap some good in
    (
      s,
      shown,
      poll_read_desire_status-IsObserved clock status doc_id after_time timeout (suc fuel) w s
          shown,
    )
