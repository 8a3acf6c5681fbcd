-- ===== src/Controllers/StatusWriter/Recorded.antt =====
-- What a status update that reports success leaves in the status database.
use rosa_hyperfleet_kube_app.Prelude.{
  ℕ, String, ◌≡◌, refl, ◌∙◌, sym, ap, inl, inr, true, Option, none, some, Bool-cases,
}
use rosa_hyperfleet_kube_app.Base.{GoError, ok, err, is_not_found_error, Result-cases}
use rosa_hyperfleet_kube_app.Controllers.StatusWriter.{
  Store, MutateFunc, update_status, create_initial_status, replace_status, wrap_failure,
}

-- The part of a desire that Replace and Create keep is `content`; `key_of` is the name that a desire
-- is stored under, `name` the name that a key asks for, and `stored` the database's view.
pub record IsStatusStore {W K T C : Type 0} (s : Store W K T) (content : T → C)
    (key_of : T → String) (name : K → String) : Type 0 where
  pub stored : W → String → Option T
  pub fetch-ok :
      (key : K) (w : W) (o : Option T)
      → (s.fetch key w).0 ≡ ok o
      → (stored w (name key) ≡ o) × (stored (s.fetch key w).1 (name key) ≡ o)
  pub fetch-not_found :
      (key : K) (w : W) (e : GoError)
      → (s.fetch key w).0 ≡ err e
      → is_not_found_error (some e) ≡ true
      → (stored w (name key) ≡ none) × (stored (s.fetch key w).1 (name key) ≡ none)
  pub replace-none :
      (d : T) (w : W)
      → (s.replace d w).0 ≡ none
      → (d' : T) × (stored (s.replace d w).1 (key_of d) ≡ some d') × (content d' ≡ content d)
  pub create-none :
      (d : T) (w : W)
      → (s.create d w).0 ≡ none
      → (d' : T) × (stored (s.create d w).1 (key_of d) ≡ some d') × (content d' ≡ content d)
  pub deep_equal-content : (a b : T) → s.deep_equal a b ≡ true → content a ≡ content b

abbrev pub or_zero : {W K T : Type 0} → Store W K T → Option T → T
or_zero s none = s.zero_value
or_zero s (some d) = d

wrap_failure-none : (t : String) (e : Option GoError) → wrap_failure t e ≡ none → e ≡ none
wrap_failure-none t none h = refl
wrap_failure-none t (some e) h = absurd (cc h)

module _ {W K T C : Type 0} (s : Store W K T) (content : T → C) (key_of : T → String)
    (name : K → String) (law : IsStatusStore s content key_of name) where
  open law use {stored, fetch-ok, fetch-not_found, replace-none, create-none, deep_equal-content}

  create_records :
      (key : K) (mutate : MutateFunc T) (w : W)
      → ((now : ℕ) (d : T) → key_of (mutate now d) ≡ name key)
      → (create_initial_status s key mutate w).0 ≡ none
      → (d : T) × (stored (create_initial_status s key mutate w).1 (name key) ≡ some d)
        × (content d ≡ content (mutate (s.clock w) s.zero_value))
  unfolding create_initial_status
  create_records key mutate w keyed done =
      let d = mutate (s.clock w) s.zero_value in
      let (d', found, same) = create-none d w (wrap_failure-none _ _ done) in
      (d', ap (stored (s.create d w).1) (sym (keyed (s.clock w) s.zero_value)) ∙ found, same)

  replace_records :
      (key : K) (existing : T) (mutate : MutateFunc T) (now : ℕ) (w : W)
      → ((now' : ℕ) (d : T) → key_of (mutate now' d) ≡ name key)
      → stored w (name key) ≡ some existing
      → (replace_status s key existing (mutate now existing) w).0 ≡ none
      → (d : T) × (stored (replace_status s key existing (mutate now existing) w).1 (name key)
          ≡ some d)
        × (content d ≡ content (mutate now existing))
  unfolding replace_status
  replace_records key existing mutate now w keyed here done =
      let d = mutate now existing in
      elim (Bool-cases (s.deep_equal existing d)) [
        | inl same ↦ rw same (existing, here, deep_equal-content existing d same)
        | inr different ↦
            let (d', found, kept) =
              replace-none d w (wrap_failure-none _ _ (rw (replace_status, different) at done)) in
            rw different
              (d', ap (stored (s.replace d w).1) (sym (keyed now existing)) ∙ found, kept)
      ]

  -- If UpdateStatus returns nil, then what is stored under the key has the content of the mutation, at
  -- the time after the fetch, of the desire that was stored there, or of the zero value if there
  -- was none. The mutation must give a desire of that key.
  pub update_status_records :
      (key : K) (mutate : MutateFunc T) (w : W)
      → ((now : ℕ) (d : T) → key_of (mutate now d) ≡ name key)
      → (update_status s key mutate w).0 ≡ none
      → (d : T) × (stored (update_status s key mutate w).1 (name key) ≡ some d)
        × (content d
            ≡ content (mutate (s.clock (s.fetch key w).1) (or_zero s (stored w (name key)))))
  unfolding update_status
  update_status_records key mutate w keyed done =
      let w' = (s.fetch key w).1 in
      elim (Result-cases (s.fetch key w).0) [
        | inl (e, failed) ↦ elim (Bool-cases (is_not_found_error (some e))) [
          | inl missing ↦
              rw (update_status, failed, missing, (fetch-not_found key w e failed missing).0)
                (create_records key mutate w' keyed (rw (update_status, failed, missing) at done))
          | inr broken ↦ absurd (cc (rw (update_status, failed, broken) at done))
        ]
        | inr (none, found) ↦
            rw (update_status, found, (fetch-ok key w none found).0)
              (create_records key mutate w' keyed (rw (update_status, found) at done))
        | inr (some d, found) ↦
            rw (update_status, found, (fetch-ok key w (some d) found).0)
              (replace_records key d mutate (s.clock w') w' keyed (fetch-ok key w (some d) found).1
                (rw (update_status, found) at done))
      ]
