-- ===== src/Desirectl/Commands/Getting.antt =====
-- The get command of cmd/desirectl/get.go. A timeout is not negative here; nothing is returned when the fuel of
-- the wait runs out.
use rosa_hyperfleet_kube_app.Prelude.{ℕ, String, Option, none, some, List, [], ◌∷◌}
use rosa_hyperfleet_kube_app.Base.{GoError, wrap, Result, ok, err, Io}
use rosa_hyperfleet_kube_app.Desirectl.Config.{Context, effective_namespace}
use rosa_hyperfleet_kube_app.Desirectl.ResourceTypes.{ResourceInfo, resolve_resource_type}
use rosa_hyperfleet_kube_app.Desirectl.Desires.{ClientPair}
use rosa_hyperfleet_kube_app.Desirectl.Getting.{Clock, run_get_named}
use rosa_hyperfleet_kube_app.Desirectl.Getting.Listing.{Listed, run_get_list}
use rosa_hyperfleet_kube_app.Desirectl.Printing.{OutputFormat, Values, parse_output_format}
use rosa_hyperfleet_kube_app.Desirectl.Printing.Results.{Printed, print_named, print_list}
use rosa_hyperfleet_kube_app.Desirectl.Commands.{Tool, with_context, with_active}

-- What is printed on the standard output, or the error; and the warnings.
abbrev pub Answer : Type 0
Answer = Option (Result Printed × List String)

abbrev pub failed_with : GoError → Answer
failed_with e = some (err e, [])

module _ {W J : Type 0} (tool : Tool W J) (values : Values J) (clock : Clock W)
    (parse_duration : String → Result ℕ) (fuel : ℕ) (flag_timeout flag_output : String) where
  -- What the command prints for one resource, and for several.
  abbrev named_answer : ResourceInfo → OutputFormat → Option (Result String) → Answer
  named_answer info format none = none
  named_answer info format (some (err e)) = failed_with e
  named_answer info format (some (ok content)) =
      some (ok (print_named values info.resource format content), [])

  abbrev list_answer : ResourceInfo → OutputFormat → Option (Result (List Listed)) → Answer
  list_answer info format none = none
  list_answer info format (some (err e)) = failed_with e
  list_answer info format (some (ok results)) =
      some (print_list values info.resource format results)

  -- `names` is args[1:]; cobra has seen to it that there is at most one.
  abbrev get_by : ResourceInfo → List String → ℕ → Context → ClientPair W → Io W Answer
  get_by info (name ∷ names) timeout active clients w =
      let (r, w') =
        run_get_named tool.lib clock clients active timeout fuel info name
          (effective_namespace active tool.flag_namespace) w in
      (named_answer info (parse_output_format flag_output) r, w')
  get_by info [] timeout active clients w =
      let (r, w') =
        run_get_list tool.lib clock clients active timeout fuel info
          (effective_namespace active tool.flag_namespace) w in
      (list_answer info (parse_output_format flag_output) r, w')

  abbrev get_active : ResourceInfo → List String → Context → Io W Answer
  get_active info names active w = elim (parse_duration flag_timeout) [
    | err e ↦ (failed_with (wrap "invalid timeout" e), w)
    | ok timeout ↦ with_context tool failed_with (get_by info names timeout) active w
  ]

  -- args is `kind ∷ names`.
  unfoldable pub new_get_cmd : String → List String → Io W Answer
  unfolding with_active
  new_get_cmd kind names w = elim (resolve_resource_type tool.lib.strings kind) [
    | err e ↦ (failed_with e, w)
    | ok info ↦ with_active tool failed_with (get_active info names) w
  ]
