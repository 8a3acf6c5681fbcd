-- ===== src/Controllers/ApplyDesire/Deletion.antt =====
-- What the mutations of the ApplyDesire controller make of the Successful condition, and what a
-- deletion that they report as done means for the cluster.
use rosa_hyperfleet_kube_app.Prelude.{
  ℕ, String, ◌≡◌, ◌≢◌, sym, ap, ◌∙◌, inl, inr, Option, none, some, string_eq, eq_iff, Bool-cases,
  Option-cases,
}
use rosa_hyperfleet_kube_app.Base.{GoError, Result-cases}
use rosa_hyperfleet_kube_app.Api.{ApplyDesire, ResourceReference}
use rosa_hyperfleet_kube_app.Controllers.Conditions.{IsMetaApi, find_status_condition}
use rosa_hyperfleet_kube_app.Controllers.Conditions.Outcomes.{
  status_of, outcome_status, degraded_keeps, successful_set, waiting_set,
}
use rosa_hyperfleet_kube_app.Controllers.Kube.{is_incomplete, IsKubeApi}
use rosa_hyperfleet_kube_app.Controllers.ApplyDesire.{
  Controller, evaluate_delete, delete_target, check_deleted, report, report_waiting,
}

-- The status of the Successful condition.
abbrev pub successful_status : ApplyDesire → String
successful_status d = status_of (find_status_condition "Successful" d.status.conditions)

module _ {W : Type 0} (c : Controller W) (meta_law : IsMetaApi c.meta) where
  pub successful-report :
      (e : Option GoError) (now : ℕ) (d : ApplyDesire)
      → successful_status (report c e now d) ≡ outcome_status e
  successful-report e now d =
      ap status_of (degraded_keeps c.meta meta_law now _ _)
      ∙ successful_set c.meta meta_law now e d.status.conditions

  successful-waiting :
      (t : ℕ) (uid : String) (now : ℕ) (d : ApplyDesire)
      → successful_status (report_waiting c t uid now d) ≡ "False"
  successful-waiting t uid now d =
      ap status_of (degraded_keeps c.meta meta_law now none _)
      ∙ waiting_set c.meta meta_law now t uid d.status.conditions

  false-ne-true : ◌≢◌ {A = String} "False" "True"
  false-ne-true h = absurd (cc ((eq_iff "False" "True").1 h))

  -- A mutation that does not report success.
  waiting_absurd :
      {A : Type 0} (t : ℕ) (uid : String) (now : ℕ) (d : ApplyDesire)
      → successful_status (report_waiting c t uid now d) ≡ "True"
      → A
  waiting_absurd t uid now d h = absurd (false-ne-true (sym (successful-waiting t uid now d) ∙ h))

  failure_absurd :
      {A : Type 0} (e : GoError) (now : ℕ) (d : ApplyDesire)
      → successful_status (report c (some e) now d) ≡ "True"
      → A
  failure_absurd e now d h = absurd (false-ne-true (sym (successful-report (some e) now d) ∙ h))

  module _ (kube_law : IsKubeApi c.kube) where
    open kube_law use {object_at, get-not_found, delete-not_found}

    check_deleted_sound :
        (r : ResourceReference) (w : W) (now : ℕ) (d : ApplyDesire)
        → successful_status ((check_deleted c r w).0 now d) ≡ "True"
        → object_at (check_deleted c r w).1 r ≡ none
    unfolding check_deleted
    check_deleted_sound r w now d h = elim (Result-cases (c.kube.get r w).0) [
      | inl (e, failed) ↦ elim (Bool-cases (c.kube.is_not_found e)) [
        | inl gone ↦ rw (check_deleted, failed) (get-not_found w r e failed gone)
        | inr other ↦ failure_absurd _ now d (rw (check_deleted, failed, other) at h)
      ]
      | inr (post, found) ↦ waiting_absurd _ _ now d (rw (check_deleted, found) at h)
    ]

    delete_target_sound :
        (r : ResourceReference) (w : W) (now : ℕ) (d : ApplyDesire)
        → successful_status ((delete_target c r w).0 now d) ≡ "True"
        → object_at (delete_target c r w).1 r ≡ none
    unfolding delete_target
    delete_target_sound r w now d h = elim (Result-cases (c.kube.delete r w).0) [
      | inl (e, failed) ↦ elim (Bool-cases (c.kube.is_not_found e)) [
        | inl gone ↦ rw (delete_target, failed) (delete-not_found w r e failed gone)
        | inr other ↦ failure_absurd _ now d (rw (delete_target, failed, other) at h)
      ]
      | inr (u, done) ↦
          rw (delete_target, done)
            (check_deleted_sound r (c.kube.delete r w).1 now d (rw (delete_target, done) at h))
    ]

    -- If the mutation that evaluateDelete returns sets Successful to True, then the cluster has
    -- no such object when evaluateDelete ends: a call has reported that it was not found.
    pub evaluate_delete_sound :
        (desire : ApplyDesire) (w : W) (now : ℕ) (d : ApplyDesire)
        → successful_status ((evaluate_delete c desire w).0 now d) ≡ "True"
        → object_at (evaluate_delete c desire w).1 desire.spec.target_item ≡ none
    unfolding evaluate_delete
    evaluate_delete_sound desire w now d h =
        let r = desire.spec.target_item in
        elim (Bool-cases (is_incomplete r)) [
          | inl incomplete ↦ failure_absurd _ now d (rw (evaluate_delete, incomplete) at h)
          | inr complete ↦ elim (Result-cases (c.kube.get r w).0) [
            | inl (e, failed) ↦ elim (Bool-cases (c.kube.is_not_found e)) [
              | inl gone ↦ rw (evaluate_delete, complete, failed) (get-not_found w r e failed gone)
              | inr other ↦
                  failure_absurd _ now d (rw (evaluate_delete, complete, failed, other) at h)
            ]
            | inr (got, found) ↦ elim (Option-cases got.deletion_timestamp) [
              | inl live ↦
                  rw (evaluate_delete, complete, found, live)
                    (delete_target_sound r (c.kube.get r w).1 now d
                      (rw (evaluate_delete, complete, found, live) at h))
              | inr (t, dying) ↦
                  waiting_absurd _ _ now d (rw (evaluate_delete, complete, found, dying) at h)
            ]
          ]
        ]
