-- ===== src/Controllers/StatusWriter.antt =====
-- pkg/controllers/desirestatuswriter: read, mutate and write back the status document, or create it.
pub mod Recorded
pub mod Backed
use rosa_hyperfleet_kube_app.Prelude.{
  ℕ, String, Bool, true, false, Option, none, some, [], ◌∷◌, if◌then◌else◌,
}
use rosa_hyperfleet_kube_app.Base.{GoError, Result, ok, err, wrap, concat, is_not_found_error, Io}

-- The Fetcher, the Replacer and the Creator that a writer is built on; equality.Semantic.DeepEqual on
-- T; the zero value of T; the clock, which meta.SetStatusCondition reads in a mutation; and `%v` of a
-- key. DeepCopy is the identity on values.
pub record Store (W K T : Type 0) : Type 0 where
  pub fetch : K → Io W (Result (Option T))
  pub replace : T → Io W (Option GoError)
  pub create : T → Io W (Option GoError)
  pub deep_equal : T → T → Bool
  pub zero_value : T
  pub clock : W → ℕ
  pub show_key : K → String

-- MutateFunc, at a time of the clock.
abbrev pub MutateFunc : Type 0 → Type 0
MutateFunc T = ℕ → T → T

abbrev pub wrap_failure : String → Option GoError → Option GoError
wrap_failure s none = none
wrap_failure s (some e) = some (wrap s e)

module _ {W K T : Type 0} (s : Store W K T) where
  unfoldable pub create_initial_status : K → MutateFunc T → Io W (Option GoError)
  create_initial_status key mutate w =
      let (e, w') = s.create (mutate (s.clock w) s.zero_value) w in
      (wrap_failure (concat ("create initial status for " ∷ s.show_key key ∷ [])) e, w')

  unfoldable pub replace_status : K → T → T → Io W (Option GoError)
  replace_status key existing desired w =
      if s.deep_equal existing desired
      then (none, w)
      else let (e, w') = s.replace desired w in
        (wrap_failure (concat ("replace status for " ∷ s.show_key key ∷ [])) e, w')

  abbrev fetch_failed : K → MutateFunc T → GoError → Bool → Io W (Option GoError)
  fetch_failed key mutate e true w = create_initial_status key mutate w
  fetch_failed key mutate e false w = (some (wrap (concat ("fetch " ∷ s.show_key key ∷ [])) e), w)

  unfoldable pub update_status : K → MutateFunc T → Io W (Option GoError)
  unfolding create_initial_status replace_status
  update_status key mutate w =
      let (r, w') = s.fetch key w in
      elim r [
        | err e ↦ fetch_failed key mutate e (is_not_found_error (some e)) w'
        | ok none ↦ create_initial_status key mutate w'
        | ok (some existing) ↦ replace_status key existing (mutate (s.clock w') existing) w'
      ]
