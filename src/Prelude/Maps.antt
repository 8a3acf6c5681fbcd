-- ===== src/Prelude/Maps.antt =====
-- Go's maps as association lists. Go iterates in no fixed order: what is proved of a loop over a
-- map holds for every order of its entries.
use mathlib.Core.Path.{◌≡◌, refl}
use mathlib.Core.Option.{Option, none, some}
use mathlib.Core.List.{List, [], ◌∷◌}
use native.Mathlib.Omega.{arith}
use rosa_hyperfleet_kube_app.Prelude.Tests.{Eq, ◌==◌, if◌then◌else◌}

abbrev pub Assoc {ℓ κ} : Type ℓ → Type κ → Type (ℓ ⊔ κ)
Assoc K V = List (K × V)

module _ {ℓ κ} {K : Type ℓ} {V : Type κ} ⦃e : Eq K⦄ where
  unfoldable pub lookup : K → Assoc K V → Option V
  lookup k [] = none
  lookup k ((j, v) ∷ entries) = if j == k then some v else lookup k entries

  -- m[k] = v
  unfoldable pub insert : K → V → Assoc K V → Assoc K V
  insert k v [] = (k, v) ∷ []
  insert k v ((j, old) ∷ entries) =
      if j == k then (k, v) ∷ entries else (j, old) ∷ insert k v entries

  -- delete(m, k)
  unfoldable pub remove : K → Assoc K V → Assoc K V
  remove k [] = []
  remove k ((j, old) ∷ entries) =
      let rest = remove k entries in if j == k then rest else (j, old) ∷ rest

  -- Each key stands once.
  abbrev pub IsMap : Assoc K V → Type κ
  IsMap [] = Unit
  IsMap ((k, v) ∷ entries) = (lookup k entries ≡ none) × IsMap entries

  pub lookup-insert :
      (k j : K) (v : V) (entries : Assoc K V)
      → lookup j (insert k v entries) ≡ (if k == j then some v else lookup j entries)
  unfolding lookup insert
  lookup-insert k j v [] = refl
  lookup-insert k j v ((i, old) ∷ entries) =
      ground (arith, e.beq_iff k j, e.beq_iff i k, e.beq_iff i j, lookup-insert k j v entries)

  pub lookup-remove :
      (k j : K) (entries : Assoc K V)
      → lookup j (remove k entries) ≡ (if k == j then none else lookup j entries)
  unfolding lookup remove
  lookup-remove k j [] = ground arith
  lookup-remove k j ((i, old) ∷ entries) =
      ground (arith, e.beq_iff k j, e.beq_iff i k, e.beq_iff i j, lookup-remove k j entries)

  pub insert-IsMap :
      (k : K) (v : V) (entries : Assoc K V) → IsMap entries → IsMap (insert k v entries)
  unfolding lookup insert
  insert-IsMap k v [] h = (refl, tt)
  insert-IsMap k v ((i, old) ∷ entries) h = ground (
    arith,
    e.beq_iff i k,
    e.beq_iff k i,
    lookup-insert k i v entries,
    insert-IsMap k v entries h.1,
  )

  pub remove-IsMap : (k : K) (entries : Assoc K V) → IsMap entries → IsMap (remove k entries)
  unfolding lookup remove
  remove-IsMap k [] h = tt
  remove-IsMap k ((i, old) ∷ entries) h =
      ground
        (arith, e.beq_iff i k, e.beq_iff k i, lookup-remove k i entries, remove-IsMap k entries h.1)
