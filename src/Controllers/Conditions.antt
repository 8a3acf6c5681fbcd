-- ===== src/Controllers/Conditions.antt =====
-- pkg/controllers/conditions: the setters of the Successful and Degraded conditions.
pub mod Outcomes
use rosa_hyperfleet_kube_app.Prelude.{
  ℕ, String, ◌≡◌, ◌≢◌, Option, none, some, List, [], ◌∷◌, if◌then◌else◌, ◌==◌, string_eq,
}
use rosa_hyperfleet_kube_app.Base.{GoError, is_pre_check_value, error_text, concat}
use rosa_hyperfleet_kube_app.Api.{
  Condition, condition_type_successful, condition_type_degraded, condition_reason_no_errors,
  condition_reason_kube_api_error, condition_reason_pre_check_failed,
  condition_reason_waiting_for_deletion, condition_reason_failed,
}

-- meta.FindStatusCondition: the first condition of a type.
unfoldable pub find_status_condition : String → List Condition → Option Condition
find_status_condition type [] = none
find_status_condition type (c ∷ conds) =
    if c.type == type then some c else find_status_condition type conds

-- The condition that a setter passes on; the transition time is left to SetStatusCondition.
pub record NewCondition : Type 0 where
  pub type : String
  pub status : String
  pub reason : String
  pub message : String

-- Of k8s.io/apimachinery: meta.SetStatusCondition at a time, and Time.Format(time.RFC3339) in UTC.
pub record MetaApi : Type 0 where
  pub set_status_condition : ℕ → List Condition → NewCondition → List Condition
  pub format_rfc3339 : ℕ → String

abbrev pub content_of : Option Condition → Option (String × (String × String))
content_of none = none
content_of (some c) = some (c.status, (c.reason, c.message))

-- The documented effect of SetStatusCondition: the condition of the new one's type gets its fields,
-- and those of other types stay.
pub record IsMetaApi (m : MetaApi) : Type 0 where
  pub find-set :
      (now : ℕ) (conds : List Condition) (c : NewCondition)
      → content_of (find_status_condition c.type (m.set_status_condition now conds c))
        ≡ some (c.status, (c.reason, c.message))
  pub find-set-other :
      (now : ℕ) (conds : List Condition) (c : NewCondition) (type : String)
      → type ≢ c.type
      → find_status_condition type (m.set_status_condition now conds c)
        ≡ find_status_condition type conds

module _ (m : MetaApi) where
  unfoldable pub set_successful : ℕ → Option GoError → List Condition → List Condition
  set_successful now none conds = m.set_status_condition now conds (record {
    type = condition_type_successful;
    status = "True";
    reason = condition_reason_no_errors;
    message = "As expected.";
  })
  set_successful now (some e) conds = m.set_status_condition now conds (record {
    type = condition_type_successful;
    status = "False";
    reason =
        if is_pre_check_value e
        then condition_reason_pre_check_failed
        else condition_reason_kube_api_error;
    message = error_text e;
  })

  unfoldable pub set_successful_waiting_for_deletion :
      ℕ → ℕ → String → List Condition → List Condition
  set_successful_waiting_for_deletion now deletion_time uid conds =
      m.set_status_condition now conds (record {
        type = condition_type_successful;
        status = "False";
        reason = condition_reason_waiting_for_deletion;
        message = concat (
            "waiting for deletion: deletionTimestamp="
            ∷ m.format_rfc3339 deletion_time
            ∷ " uid="
            ∷ uid
            ∷ []);
      })

  unfoldable pub set_degraded : ℕ → Option GoError → List Condition → List Condition
  set_degraded now none conds = m.set_status_condition now conds (record {
    type = condition_type_degraded;
    status = "False";
    reason = condition_reason_no_errors;
    message = "As expected.";
  })
  set_degraded now (some e) conds = m.set_status_condition now conds (record {
    type = condition_type_degraded;
    status = "True";
    reason = condition_reason_failed;
    message = concat ("Had an error while syncing: " ∷ error_text e ∷ []);
  })
