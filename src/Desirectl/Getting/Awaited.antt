-- ===== src/Desirectl/Getting/Awaited.antt =====
-- The wait for the status of a read desire ends, and what it returns.
use std.Path.{subst}
use rosa_hyperfleet_kube_app.Prelude.{
  ℕ, zero, suc, ◌+◌, ◌*◌, ◌≤◌, ◌<◌, String, ◌≡◌, refl, inl, inr, true, false, ◌||◌, Option, some,
  List, [], ◌∷◌, ltb, arith, Bool-cases,
}
use rosa_hyperfleet_kube_app.Base.{Result, ok, Result-cases, is_not_found_error}
use rosa_hyperfleet_kube_app.Api.{ReadDesire, ReadDesireStatus, Condition}
use rosa_hyperfleet_kube_app.Database.Client.{ResourceCrud}
use rosa_hyperfleet_kube_app.Desirectl.Getting.{
  Clock, is_fresh, has_content, is_failed, read_result, next_interval, poll,
  poll_read_desire_status,
}

-- What the wait relies on: a read does not turn the clock back, and a sleep lasts its time.
pub record IsClock {W : Type 0} (clock : Clock W) (status : ResourceCrud W ReadDesire)
    : Type 0 where
  pub get-now : (id : String) (w : W) → clock.now w ≤ clock.now (status.get id w).1
  pub sleep-now :
      (interval : ℕ) (w : W) → clock.now w + interval ≤ clock.now (clock.sleep interval w)

late-ltb : (a b : ℕ) → a < b → ltb a b ≡ true
late-ltb a b h = ground arith

next_interval-bound : (interval : ℕ) → 200 ≤ interval → 200 ≤ next_interval interval
next_interval-bound interval h = ground arith

abbrev pub IsSome : {A : Type 0} → Option A → Type 0
IsSome {A} o = (a : A) × (o ≡ some a)

module _ {W : Type 0} (clock : Clock W) (status : ResourceCrud W ReadDesire) (doc_id : String)
    (after_time deadline : ℕ) (law : IsClock clock status) where
  pub poll-IsSome :
      (fuel interval : ℕ) (w : W)
      → 200 ≤ interval
      → deadline < clock.now w + fuel * 200
      → IsSome (poll clock status doc_id after_time deadline (suc fuel) interval w).0
  unfolding poll
  poll-IsSome zero interval w big soon =
      let w' = (status.get doc_id w).1 in
      let late = late-ltb deadline (clock.now w') (omega (arith, law.get-now doc_id w, soon)) in
      elim (Result-cases (status.get doc_id w).0) [
        | inl (e, failed) ↦ elim (Bool-cases (is_not_found_error (some e))) [
          | inl missing ↦ rw (poll, failed, missing, late) (_, refl)
          | inr broken ↦ rw (poll, failed, broken) (_, refl)
        ]
        | inr (d, found) ↦
            elim (Bool-cases (is_fresh after_time d.status || has_content d.status.kube_content)) [
              | inl seen ↦ rw (poll, found, seen) (_, refl)
              | inr stale ↦ rw (poll, found, stale, late) (_, refl)
            ]
      ]
  poll-IsSome (suc fuel) interval w big soon =
      let w' = (status.get doc_id w).1 in
      let again =
        poll-IsSome fuel (next_interval interval) (clock.sleep interval w')
          (next_interval-bound interval big)
          (omega (arith, law.get-now doc_id w, law.sleep-now interval w', soon, big)) in
      elim (Result-cases (status.get doc_id w).0) [
        | inl (e, failed) ↦ elim (Bool-cases (is_not_found_error (some e))) [
          | inl missing ↦ elim (Bool-cases (ltb deadline (clock.now w'))) [
            | inl late ↦ rw (poll, failed, missing, late) (_, refl)
            | inr early ↦ rw (poll, failed, missing, early) again
          ]
          | inr broken ↦ rw (poll, failed, broken) (_, refl)
        ]
        | inr (d, found) ↦
            elim (Bool-cases (is_fresh after_time d.status || has_content d.status.kube_content)) [
              | inl seen ↦ rw (poll, found, seen) (_, refl)
              | inr stale ↦ elim (Bool-cases (ltb deadline (clock.now w'))) [
                | inl late ↦ rw (poll, found, stale, late) (_, refl)
                | inr early ↦ rw (poll, found, stale, early) again
              ]
            ]
      ]

-- The wait for a status returns a result, an error or not, within one pass for each 200 milliseconds of
-- the timeout and two more, whatever the reads return. A read must not turn the clock back, and a
-- sleep must last its time.
pub poll_read_desire_status_ends :
    {W : Type 0} (clock : Clock W) (status : ResourceCrud W ReadDesire) (doc_id : String)
    (after_time timeout fuel : ℕ) (w : W)
    → IsClock clock status
    → timeout < fuel * 200
    → (r : Result ReadDesireStatus) × ((poll_read_desire_status clock status doc_id after_time
          timeout
          (suc fuel)
          w).0
        ≡ some r)
unfolding poll_read_desire_status
poll_read_desire_status_ends clock status doc_id after_time timeout fuel w law enough =
    poll-IsSome clock status doc_id after_time (clock.now w + timeout) law fuel 200 w (omega arith)
      (omega (arith, enough))

-- No condition says that the read failed.
abbrev pub IsUnfailed : List Condition → Type 0
IsUnfailed [] = Unit
IsUnfailed (c ∷ conditions) = (is_failed c ≡ false) × IsUnfailed conditions

pub read_result-ok :
    (conditions : List Condition) (s s' : ReadDesireStatus)
    → read_result conditions s ≡ ok s'
    → (s ≡ s') × IsUnfailed conditions
read_result-ok [] s s' h = (cc h, tt)
read_result-ok (c ∷ conditions) s s' h = elim (Bool-cases (is_failed c)) [
  | inl failed ↦ absurd (cc (rw failed at h))
  | inr fine ↦
      let (same, rest) = read_result-ok conditions s s' (rw fine at h) in (same, (fine, rest))
]

-- A status that a read of the document returned, and that the tool may show.
abbrev pub IsObserved :
    {W : Type 0} → ResourceCrud W ReadDesire → String → ℕ → ReadDesireStatus → Type 0
IsObserved {W} status doc_id after_time s =
    (w : W) × (d : ReadDesire) × ((status.get doc_id w).0 ≡ ok d)
    × (d.status ≡ s)
    × ((is_fresh after_time s || has_content s.kube_content) ≡ true)
    × IsUnfailed s.conditions

module _ {W : Type 0} (clock : Clock W) (status : ResourceCrud W ReadDesire) (doc_id : String)
    (after_time deadline : ℕ) where
  read_result-IsObserved :
      (w : W) (d : ReadDesire) (s : ReadDesireStatus)
      → (status.get doc_id w).0 ≡ ok d
      → (is_fresh after_time d.status || has_content d.status.kube_content) ≡ true
      → read_result d.status.conditions d.status ≡ ok s
      → IsObserved status doc_id after_time s
  read_result-IsObserved w d s found seen h =
      let (same, fine) = read_result-ok d.status.conditions d.status s h in
      (
        w,
        d,
        found,
        same,
        subst
            (λ (x : ReadDesireStatus). (is_fresh after_time x || has_content x.kube_content) ≡ true)
            same seen,
        subst (λ (x : ReadDesireStatus). IsUnfailed x.conditions) same fine,
      )

  poll-IsObserved :
      (fuel interval : ℕ) (w : W) (s : ReadDesireStatus)
      → (poll clock status doc_id after_time deadline fuel interval w).0 ≡ some (ok s)
      → IsObserved status doc_id after_time s
  unfolding poll
  poll-IsObserved zero interval w s h = absurd (cc h)
  poll-IsObserved (suc fuel) interval w s h =
      let w' = (status.get doc_id w).1 in
      let again = poll-IsObserved fuel (next_interval interval) (clock.sleep interval w') s in
      elim (Result-cases (status.get doc_id w).0) [
        | inl (e, failed) ↦ elim (Bool-cases (is_not_found_error (some e))) [
          | inl missing ↦ elim (Bool-cases (ltb deadline (clock.now w'))) [
            | inl late ↦ absurd (cc (rw (poll, failed, missing, late) at h))
            | inr early ↦ again (rw (poll, failed, missing, early) at h)
          ]
          | inr broken ↦ absurd (cc (rw (poll, failed, broken) at h))
        ]
        | inr (d, found) ↦
            elim (Bool-cases (is_fresh after_time d.status || has_content d.status.kube_content)) [
              | inl seen ↦
                  read_result-IsObserved w d s found seen (cc (rw (poll, found, seen) at h))
              | inr stale ↦ elim (Bool-cases (ltb deadline (clock.now w'))) [
                | inl late ↦ absurd (cc (rw (poll, found, stale, late) at h))
                | inr early ↦ again (rw (poll, found, stale, early) at h)
              ]
            ]
      ]

-- A status that the wait returns without an error is the status that some read of the document
-- returned. It has been observed at the time asked for or later, or has content; and none of its
-- conditions is a Successful that is False.
pub poll_read_desire_status-IsObserved :
    {W : Type 0} (clock : Clock W) (status : ResourceCrud W ReadDesire) (doc_id : String)
    (after_time timeout fuel : ℕ) (w : W) (s : ReadDesireStatus)
    → (poll_read_desire_status clock status doc_id after_time timeout fuel w).0 ≡ some (ok s)
    → IsObserved status doc_id after_time s
unfolding poll_read_desire_status
poll_read_desire_status-IsObserved clock status doc_id after_time timeout fuel w s =
    poll-IsObserved clock status doc_id after_time (clock.now w + timeout) fuel 200 w s
