-- ===== src/Controllers/ApplyDesire/Sync.antt =====
-- What a reconcile that reports no error has done, and left in the status database.
use rosa_hyperfleet_kube_app.Prelude.{
  ℕ, String, ◌≡◌, ◌≢◌, refl, sym, ap, ◌∙◌, inl, inr, true, false, Option, none, some, ◌==◌,
  string_eq, arith, eq_iff, Bool-cases, Option-cases,
}
use rosa_hyperfleet_kube_app.Base.{GoError, ok, Result-cases, errors_join}
use rosa_hyperfleet_kube_app.Api.{ApplyDesire, ApplyDesireStatus, DynamoDbMetadata}
use rosa_hyperfleet_kube_app.Controllers.Conditions.{IsMetaApi, find_status_condition}
use rosa_hyperfleet_kube_app.Controllers.Keys.{ApplyDesireKey}
use rosa_hyperfleet_kube_app.Controllers.Kube.{is_incomplete, IsKubeApi, Object}
use rosa_hyperfleet_kube_app.Controllers.StatusWriter.{MutateFunc}
use rosa_hyperfleet_kube_app.Controllers.StatusWriter.Recorded.{
  IsStatusStore, update_status_records, or_zero,
}
use rosa_hyperfleet_kube_app.Controllers.ApplyDesire.{
  Controller, apply_desired, apply_decoded, evaluate_delete, delete_target, check_deleted,
  sync_apply, sync_delete, sync_unknown, sync_desire, report, observe, set_generation, raw_content,
  field_manager,
}
use rosa_hyperfleet_kube_app.Controllers.ApplyDesire.Deletion.{
  successful_status, evaluate_delete_sound, successful-report,
}
use rosa_hyperfleet_kube_app.Controllers.Conditions.Outcomes.{status_of, outcome_status}

abbrev pub status_content : ApplyDesire → ApplyDesireStatus
status_content d = d.status

abbrev successful_in : ApplyDesireStatus → String
successful_in s = status_of (find_status_condition "Successful" s.conditions)

abbrev pub document_name : ApplyDesire → String
document_name d = d.metadata.document_id

abbrev pub key_name : ApplyDesireKey → String
key_name k = k.name

errors_join-none : (e f : Option GoError) → errors_join e f ≡ none → (e ≡ none) × (f ≡ none)
unfolding errors_join
errors_join-none none none h = (refl, refl)
errors_join-none none (some f) h = absurd (cc h)
errors_join-none (some e) none h = absurd (cc h)
errors_join-none (some e) (some f) h = absurd (cc h)

beq_of_ne : (a b : String) → a ≢ b → (a == b) ≡ false
beq_of_ne a b h = ground (arith, eq_iff a b)

module _ {W : Type 0} (c : Controller W) where
  -- What every mutation of evaluateDelete leaves alone.
  abbrev Keeps : MutateFunc ApplyDesire → Type 0
  Keeps f =
      (now : ℕ) (d : ApplyDesire)
      → ((f now d).metadata ≡ d.metadata)
        × ((f now d).status.observed_desire_update_time ≡ d.status.observed_desire_update_time)

  evaluate_delete-Keeps : (desire : ApplyDesire) (w : W) → Keeps (evaluate_delete c desire w).0
  unfolding evaluate_delete delete_target check_deleted
  evaluate_delete-Keeps desire w now d = ground arith

  apply_desired-none :
      (d : ApplyDesire) (w : W)
      → (apply_desired c d w).0.1 ≡ none
      → (o : Object) × ((c.kube.apply d.spec.target_item
            (raw_content d.spec.server_side_apply)
            field_manager
            true
            w).0
          ≡ ok o)
        × ((apply_desired c d w).0.0 ≡ o.generation)
  unfolding apply_desired apply_decoded
  apply_desired-none d w h =
      let r = d.spec.target_item in
      let raw = raw_content d.spec.server_side_apply in
      elim (Bool-cases (is_incomplete r)) [
        | inl incomplete ↦ absurd (cc (rw (apply_desired, incomplete) at h))
        | inr complete ↦ elim (Bool-cases (raw == "")) [
          | inl empty ↦ absurd (cc (rw (apply_desired, complete, empty) at h))
          | inr content ↦ elim (Option-cases (c.kube.unmarshal_json raw)) [
            | inr (e, garbled) ↦
                absurd (cc (rw (apply_desired, complete, content, apply_decoded, garbled) at h))
            | inl valid ↦ elim (Result-cases (c.kube.apply r raw field_manager true w).0) [
              | inl (e, failed) ↦
                  absurd
                    (cc (rw (apply_desired, complete, content, apply_decoded, valid, failed) at h))
              | inr (o, done) ↦
                  (o, done, rw (apply_desired, complete, content, apply_decoded, valid, done) refl)
            ]
          ]
        ]
      ]

  sync_unknown_fails :
      (key : ApplyDesireKey) (desire : ApplyDesire) (w : W) → (sync_unknown c key desire w).0 ≢ none
  unfolding sync_unknown
  sync_unknown_fails key desire w done = absurd (cc (errors_join-none _ _ done).0)

  module _ (meta_law : IsMetaApi c.meta)
      (status_law : IsStatusStore c.status status_content document_name key_name) where
    open status_law use {stored}

    -- If the reconcile of a ServerSideApply desire reports no error, then the server has applied the
    -- manifest, and the status document says so: Successful is True, the generation is the one
    -- that the server returned, and the observed update time is the desire's. The desire is
    -- stored under the key's name.
    pub sync_apply_sound :
        (key : ApplyDesireKey) (desire : ApplyDesire) (w : W)
        → desire.metadata.document_id ≡ key.name
        → (sync_apply c key desire w).0 ≡ none
        → (o : Object) × (d : ApplyDesire) × ((c.kube.apply desire.spec.target_item
              (raw_content desire.spec.server_side_apply)
              field_manager
              true
              w).0
            ≡ ok o)
          × (stored (sync_apply c key desire w).1 key.name ≡ some d)
          × (successful_status d ≡ "True")
          × (d.status.applied_resource_generation ≡ o.generation)
          × (d.status.observed_desire_update_time ≡ desire.metadata.update_time)
    unfolding sync_apply
    sync_apply_sound key desire w named done =
        let (outcome, w') = apply_desired c desire w in
        let mutate = λ (now : ℕ) (d : ApplyDesire).
          report c outcome.1 now (set_generation outcome.0 (observe desire d)) in
        let (applied, written) = errors_join-none outcome.1 _ done in
        let (o, accepted, generation) = apply_desired-none desire w applied in
        let now = c.status.clock (c.status.fetch key w').1 in
        let old = or_zero c.status (stored w' key.name) in
        let (d, found, same) =
          update_status_records c.status status_content document_name key_name status_law key mutate
            w' (λ now d. named) written in
        (
          o,
          d,
          accepted,
          found,
          (ap successful_in same
              ∙ successful-report c meta_law outcome.1 now
                  (set_generation outcome.0 (observe desire old))
              ∙ ap outcome_status applied),
          ap (λ (s : ApplyDesireStatus). s.applied_resource_generation) same ∙ generation,
          ap (λ (s : ApplyDesireStatus). s.observed_desire_update_time) same,
        )

    -- If the reconcile of a Delete desire reports no error, then its status document has the desire's
    -- update time, and Successful is True there only if the object was gone from the cluster when
    -- evaluateDelete ended. The desire is stored under the key's name.
    pub sync_delete_sound :
        (kube_law : IsKubeApi c.kube) (key : ApplyDesireKey) (desire : ApplyDesire) (w : W)
        → desire.metadata.document_id ≡ key.name
        → (sync_delete c key desire w).0 ≡ none
        → (d : ApplyDesire) × (stored (sync_delete c key desire w).1 key.name ≡ some d)
          × (d.status.observed_desire_update_time ≡ desire.metadata.update_time)
          × (successful_status d ≡ "True"
              → kube_law.object_at (evaluate_delete c desire w).1 desire.spec.target_item ≡ none)
    unfolding sync_delete
    sync_delete_sound kube_law key desire w named done =
        let (outcome, w') = evaluate_delete c desire w in
        let mutate = λ (now : ℕ) (d : ApplyDesire). outcome now (observe desire d) in
        let now = c.status.clock (c.status.fetch key w').1 in
        let old = or_zero c.status (stored w' key.name) in
        let keeps = evaluate_delete-Keeps desire w in
        let (d, found, same) =
          update_status_records c.status status_content document_name key_name status_law key mutate
            w'
            (λ now d.
              ap (λ (m : DynamoDbMetadata). m.document_id) (keeps now (observe desire d)).0 ∙ named)
            done in
        (
          d,
          found,
          ap (λ (s : ApplyDesireStatus). s.observed_desire_update_time) same
              ∙ (keeps now (observe desire old)).1,
          λ reported.
              evaluate_delete_sound c meta_law kube_law desire w now (observe desire old)
                (sym (ap successful_in same) ∙ reported),
        )

  -- The reconcile of a desire whose type is neither ServerSideApply, nor empty, nor Delete
  -- always returns an error.
  pub sync_desire_unknown :
      (key : ApplyDesireKey) (desire : ApplyDesire) (w : W)
      → desire.spec.type ≢ "ServerSideApply"
      → desire.spec.type ≢ ""
      → desire.spec.type ≢ "Delete"
      → (sync_desire c key desire w).0 ≢ none
  unfolding sync_desire
  sync_desire_unknown key desire w h1 h2 h3 done =
      let type = desire.spec.type in
      sync_unknown_fails key desire w (
        rw
          (
            sync_desire,
            beq_of_ne type "ServerSideApply" h1,
            beq_of_ne type "" h2,
            beq_of_ne type "Delete" h3,
          )
          at done)
