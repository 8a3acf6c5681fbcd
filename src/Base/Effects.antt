-- ===== src/Base/Effects.antt =====
-- A Go function that returns `(T, error)` gives a `Result`; one that also talks to a service or
-- reads the clock takes and returns the world.
use rosa_hyperfleet_kube_app.Prelude.{Option, none, some, String, ◌≡◌, refl, ◌⊎◌, inl, inr}
use rosa_hyperfleet_kube_app.Base.Errors.{GoError, wrap}

pub data Result {ℓ} (A : Type ℓ) : Type ℓ where
  ok : A → Result A
  err : GoError → Result A

infixl 5 ◌>>=◌
abbrev pub ◌>>=◌ {ℓ κ} : {T : Type ℓ} {U : Type κ} → Result T → (T → Result U) → Result U
ok value >>= next = next value
err e >>= next = err e

-- if err != nil { return fmt.Errorf("prefix: %w", err) }
abbrev pub wrapping {ℓ} : {A : Type ℓ} → String → Result A → Result A
wrapping s (ok a) = ok a
wrapping s (err e) = err (wrap s e)

-- The error of a result: nil on success.
abbrev pub error_of {ℓ} : {A : Type ℓ} → Result A → Option GoError
error_of (ok a) = none
error_of (err e) = some e

-- A call that may change the world and look at it.
abbrev pub Io {ℓ} : Type 0 → Type ℓ → Type ℓ
Io W A = W → A × W

pub Result-cases {ℓ} :
    {A : Type ℓ} (r : Result A) → ((e : GoError) × (r ≡ err e)) ⊎ ((a : A) × (r ≡ ok a))
Result-cases (err e) = inl (e, refl)
Result-cases (ok a) = inr (a, refl)
