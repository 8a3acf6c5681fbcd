-- ===== src/Controllers/Conditions/Outcomes.antt =====
-- What the setters make of the status of the Successful condition.
use rosa_hyperfleet_kube_app.Prelude.{ℕ, String, ◌≡◌, ◌≢◌, Option, none, some, List, eq_iff}
use rosa_hyperfleet_kube_app.Base.{GoError}
use rosa_hyperfleet_kube_app.Api.{Condition}
use rosa_hyperfleet_kube_app.Controllers.Conditions.{
  MetaApi, IsMetaApi, find_status_condition, set_successful, set_degraded, content_of,
  set_successful_waiting_for_deletion,
}

abbrev pub status_of : Option Condition → String
status_of none = ""
status_of (some c) = c.status

abbrev pub outcome_status : Option GoError → String
outcome_status none = "True"
outcome_status (some e) = "False"

status_of-content :
    (o : Option Condition) (s r t : String) → content_of o ≡ some (s, (r, t)) → status_of o ≡ s
status_of-content none s r t h = absurd (cc h)
status_of-content (some c) s r t h = cc h

successful-ne-degraded : ◌≢◌ {A = String} "Successful" "Degraded"
successful-ne-degraded h = absurd (cc ((eq_iff "Successful" "Degraded").1 h))

module _ (m : MetaApi) (law : IsMetaApi m) where
  pub degraded_keeps :
      (now : ℕ) (e : Option GoError) (conds : List Condition)
      → find_status_condition "Successful" (set_degraded m now e conds)
        ≡ find_status_condition "Successful" conds
  unfolding set_degraded
  degraded_keeps now none conds = law.find-set-other now conds _ "Successful" successful-ne-degraded
  degraded_keeps now (some e) conds =
      law.find-set-other now conds _ "Successful" successful-ne-degraded

  pub successful_set :
      (now : ℕ) (e : Option GoError) (conds : List Condition)
      → status_of (find_status_condition "Successful" (set_successful m now e conds))
        ≡ outcome_status e
  unfolding set_successful
  successful_set now none conds = status_of-content _ _ _ _ (law.find-set now conds _)
  successful_set now (some e) conds = status_of-content _ _ _ _ (law.find-set now conds _)

  pub waiting_set :
      (now t : ℕ) (uid : String) (conds : List Condition)
      → status_of (
          find_status_condition "Successful"
            (set_successful_waiting_for_deletion m now t uid conds))
        ≡ "False"
  unfolding set_successful_waiting_for_deletion
  waiting_set now t uid conds = status_of-content _ _ _ _ (law.find-set now conds _)
