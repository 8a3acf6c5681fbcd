-- ===== src/Controllers/ApplyDesire.antt =====
-- pkg/controllers/apply_desire/controller.go: one reconcile of an ApplyDesire. The event handlers and
-- the worker are in ApplyDesire/Handlers.
pub mod Handlers
pub mod Deletion
pub mod Sync
use rosa_hyperfleet_kube_app.Prelude.{
  ℕ, String, Bool, true, false, not, ◌&&◌, ◌||◌, Option, none, some, List, [], ◌∷◌, if◌then◌else◌,
  ◌==◌, leb, ltb, string_eq,
}
use rosa_hyperfleet_kube_app.Base.{
  GoError, plain, pre_check, wrap, concat, Result, ok, err, Io, chain_any, is_pre_check_value,
  as_status_error, errors_join, is_not_found_error,
}
use rosa_hyperfleet_kube_app.Api.{
  ApplyDesire, ApplyDesireStatus, ResourceReference, RawExtension, ServerSideApplyConfig, Condition,
  apply_desire_type_server_side_apply, apply_desire_type_delete, DynamoDbMetadata,
}
use rosa_hyperfleet_kube_app.Controllers.Conditions.{
  MetaApi, set_successful, set_degraded, set_successful_waiting_for_deletion,
}
use rosa_hyperfleet_kube_app.Controllers.StatusWriter.{Store, MutateFunc, update_status}
use rosa_hyperfleet_kube_app.Controllers.Keys.{ApplyDesireKey}
use rosa_hyperfleet_kube_app.Controllers.Kube.{KubeApi, Object, is_incomplete, incomplete_target}

abbrev pub field_manager : String
field_manager = "gcp-hcp-kube-applier"

abbrev is_client_code : Option ℕ → Bool
is_client_code none = false
is_client_code (some c) = leb 400 c && ltb c 500

unfoldable pub is_client_error : GoError → Bool
is_client_error e = is_client_code (as_status_error e)

unfoldable pub classify_as_degraded : Option GoError → Option GoError
unfolding is_client_error
classify_as_degraded none = none
classify_as_degraded (some e) =
    if chain_any is_pre_check_value e then none else if is_client_error e then none else some e

-- The manifest's raw JSON, empty where a pointer on the way is nil.
abbrev raw_of : Option RawExtension → String
raw_of none = ""
raw_of (some x) = x.raw

abbrev pub raw_content : Option ServerSideApplyConfig → String
raw_content none = ""
raw_content (some c) = raw_of c.kube_content

-- d.Status.Conditions = f(d.Status.Conditions)
abbrev pub with_conditions : (List Condition → List Condition) → ApplyDesire → ApplyDesire
with_conditions f d = record d { status = record d.status { conditions = f d.status.conditions } }

-- d.SetDocumentID(…); d.Status.ObservedDesireUpdateTime = …
abbrev pub observe : ApplyDesire → ApplyDesire → ApplyDesire
observe desire d = record d {
  metadata = record d.metadata { document_id = desire.metadata.document_id };
  status = record d.status { observed_desire_update_time = desire.metadata.update_time };
}

abbrev pub set_generation : ℕ → ApplyDesire → ApplyDesire
set_generation g d = record d { status = record d.status { applied_resource_generation = g } }

-- What the controller is built on.
pub record Controller (W : Type 0) : Type 0 where
  pub kube : KubeApi W
  pub meta : MetaApi
  -- the specs database's Get
  pub fetch_spec : String → Io W (Result (Option ApplyDesire))
  pub status : Store W ApplyDesireKey ApplyDesire

module _ {W : Type 0} (c : Controller W) where
  abbrev apply_result : Result Object → ℕ × Option GoError
  apply_result (err e) = (0, some (wrap "server-side apply" e))
  apply_result (ok o) = (o.generation, none)

  unfoldable pub apply_decoded : ResourceReference → String → Io W (ℕ × Option GoError)
  apply_decoded target raw w = elim (c.kube.unmarshal_json raw) [
    | some e ↦ ((0, some (pre_check (wrap "decode kubeContent" e))), w)
    | none ↦ let (r, w') = c.kube.apply target raw field_manager true w in (apply_result r, w')
  ]

  unfoldable pub apply_desired : ApplyDesire → Io W (ℕ × Option GoError)
  unfolding apply_decoded
  apply_desired d w =
      if is_incomplete d.spec.target_item
      then ((0, some incomplete_target), w)
      else if raw_content d.spec.server_side_apply == ""
      then ((0, some (pre_check (plain "spec.serverSideApply.kubeContent is empty"))), w)
      else apply_decoded d.spec.target_item (raw_content d.spec.server_side_apply) w

  -- The mutations that evaluateDelete returns: for an outcome, and for a deletion under way.
  abbrev pub report : Option GoError → MutateFunc ApplyDesire
  report e now =
      with_conditions λ conds.
        set_degraded c.meta now (classify_as_degraded e) (set_successful c.meta now e conds)

  abbrev pub report_waiting : ℕ → String → MutateFunc ApplyDesire
  report_waiting deletion_time uid now = with_conditions λ conds.
      set_degraded c.meta now none
        (set_successful_waiting_for_deletion c.meta now deletion_time uid conds)

  -- An error of a call: the object is gone if it is NotFound.
  abbrev report_error : String → GoError → MutateFunc ApplyDesire
  report_error s e = report (if c.kube.is_not_found e then none else some (wrap s e))

  abbrev deletion_time_or_now : Option ℕ → ℕ → ℕ
  deletion_time_or_now none now = now
  deletion_time_or_now (some t) now = t

  -- The second Get, after a delete that was accepted.
  unfoldable pub check_deleted : ResourceReference → Io W (MutateFunc ApplyDesire)
  check_deleted target w =
      let (r, w') = c.kube.get target w in
      elim r [
        | err e ↦ (report_error "post-delete get" e, w')
        | ok post ↦ (
          report_waiting (deletion_time_or_now post.deletion_timestamp (c.kube.now w')) post.uid,
          w',
        )
      ]

  unfoldable pub delete_target : ResourceReference → Io W (MutateFunc ApplyDesire)
  unfolding check_deleted
  delete_target target w =
      let (r, w') = c.kube.delete target w in
      elim r [ err e ↦ (report_error "delete target" e, w') | ok u ↦ check_deleted target w' ]

  abbrev delete_live : ResourceReference → Object → Io W (MutateFunc ApplyDesire)
  delete_live target got w = elim got.deletion_timestamp [
    | some t ↦ (report_waiting t got.uid, w)
    | none ↦ delete_target target w
  ]

  unfoldable pub evaluate_delete : ApplyDesire → Io W (MutateFunc ApplyDesire)
  unfolding delete_target
  evaluate_delete d w =
      if is_incomplete d.spec.target_item
      then (report (some incomplete_target), w)
      else let (r, w') = c.kube.get d.spec.target_item w in
        elim r [
          | err e ↦ (report_error "get target" e, w')
          | ok got ↦ delete_live d.spec.target_item got w'
        ]

  unfoldable pub sync_apply : ApplyDesireKey → ApplyDesire → Io W (Option GoError)
  unfolding apply_desired
  sync_apply key desire w =
      let ((applied_gen, sync_err), w') = apply_desired desire w in
      let (status_err, w'') =
        update_status c.status key
          (λ now d. report sync_err now (set_generation applied_gen (observe desire d))) w' in
      (errors_join sync_err status_err, w'')

  unfoldable pub sync_delete : ApplyDesireKey → ApplyDesire → Io W (Option GoError)
  unfolding evaluate_delete
  sync_delete key desire w =
      let (mutate, w') = evaluate_delete desire w in
      update_status c.status key (λ now d. mutate now (observe desire d)) w'

  abbrev unknown_type : String → GoError
  unknown_type type = pre_check (plain (concat ("unknown desire type \"" ∷ type ∷ "\"" ∷ [])))

  unfoldable pub sync_unknown : ApplyDesireKey → ApplyDesire → Io W (Option GoError)
  sync_unknown key desire w =
      let sync_err = some (unknown_type desire.spec.type) in
      let (status_err, w') =
        update_status c.status key
          (λ now d.
            with_conditions
              (λ conds. set_degraded c.meta now none (set_successful c.meta now sync_err conds))
              (observe desire d))
          w in
      (errors_join sync_err status_err, w')

  unfoldable pub sync_desire : ApplyDesireKey → ApplyDesire → Io W (Option GoError)
  unfolding sync_apply sync_delete sync_unknown
  sync_desire key desire w =
      if (desire.spec.type == apply_desire_type_server_side_apply) || (desire.spec.type == "")
      then sync_apply key desire w
      else if desire.spec.type == apply_desire_type_delete
      then sync_delete key desire w
      else sync_unknown key desire w

  unfoldable pub sync_once : ApplyDesireKey → Io W (Option GoError)
  unfolding sync_desire
  sync_once key w =
      let (r, w') = c.fetch_spec key.name w in
      elim r [
        | err e ↦ (if is_not_found_error (some e) then none else some e, w')
        | ok none ↦ (none, w')
        | ok (some desire) ↦ sync_desire key desire w'
      ]
