-- ===== src/Controllers/ReadManager/Stopping.antt =====
-- What is left when controllers are stopped.
use rosa_hyperfleet_kube_app.Prelude.{
  ℕ, ◌≡◌, refl, sym, ap, ◌∙◌, inl, inr, false, none, List, [], ◌∷◌, Assoc, lookup, lookup-remove,
  contains, if◌then◌else◌, ◌==◌, nat_eq, map, arith, Bool-cases, Option-cases,
}
use rosa_hyperfleet_kube_app.Controllers.Keys.{ReadDesireKey}
use rosa_hyperfleet_kube_app.Controllers.ReadManager.{
  RunningInstance, ManagerState, key_eq, key_beq_iff, stop_by_key, stop_all, stop_keys,
}
use rosa_hyperfleet_kube_app.Controllers.ReadManager.Lifecycle.{
  IsManaged, Reach, Reach-IsManaged, stop_by_key-IsManaged,
}

pub lookup-stop_by_key :
    (key k : ReadDesireKey) (s : ManagerState)
    → lookup k (stop_by_key key s).running ≡ (if key == k then none else lookup k s.running)
unfolding stop_by_key
lookup-stop_by_key key k s = elim (Option-cases (lookup key s.running)) [
  | inl absent ↦ elim (Bool-cases (key == k)) [
    | inl same ↦
        rw (absent, same) (ap (λ x. lookup x s.running) (sym ((key_beq_iff key k).0 same)) ∙ absent)
    | inr other ↦ rw (absent, other) refl
  ]
  | inr (cur, here) ↦ rw here (lookup-remove key k s.running)
]

lookup-stop_keys :
    (keys : List ReadDesireKey) (k : ReadDesireKey) (s : ManagerState)
    → lookup k (stop_keys keys s).running ≡ (if contains keys k then none else lookup k s.running)
lookup-stop_keys [] k s = refl
lookup-stop_keys (key ∷ keys) k s =
    ground (arith, lookup-stop_keys keys k (stop_by_key key s), lookup-stop_by_key key k s)

stop_keys-IsManaged :
    (keys : List ReadDesireKey) (s : ManagerState)
    → IsManaged (record { manager = s; stopping = [] })
    → IsManaged (record { manager = stop_keys keys s; stopping = [] })
stop_keys-IsManaged [] s m = m
stop_keys-IsManaged (key ∷ keys) s m =
    stop_keys-IsManaged keys (stop_by_key key s) (stop_by_key-IsManaged key s m)

lookup_absent :
    (k : ReadDesireKey) (entries : Assoc ReadDesireKey RunningInstance)
    → contains (map (λ e. e.0) entries) k ≡ false
    → lookup k entries ≡ none
unfolding lookup
lookup_absent k [] h = refl
lookup_absent k ((j, v) ∷ entries) h = ground (arith, lookup_absent k entries, h)

nothing_left :
    (entries : Assoc ReadDesireKey RunningInstance)
    → ((k : ReadDesireKey) → lookup k entries ≡ none)
    → entries ≡ []
unfolding lookup
nothing_left [] h = refl
nothing_left ((k, v) ∷ entries) h = absurd (ground (arith, h k, (key_beq_iff k k).1 refl))

no_goroutine : (gs : List ℕ) → ((g : ℕ) → contains gs g ≡ false) → gs ≡ []
no_goroutine [] h = refl
no_goroutine (g ∷ gs) h = absurd (ground (arith, h g))

-- In every reachable state in which no stopByKey waits, stopping all of the controllers, with nothing in
-- between, leaves none in the map and no goroutine that has not ended.
pub stop_all_ends :
    (s : ManagerState)
    → Reach (record { manager = s; stopping = [] })
    → ((stop_all s).running ≡ []) × ((stop_all s).live ≡ [])
unfolding stop_all
stop_all_ends s r =
    let keys = map (λ e. e.0) s.running in
    let m = stop_keys-IsManaged keys s (Reach-IsManaged _ r) in
    let absent : (k : ReadDesireKey) → lookup k (stop_keys keys s).running ≡ none =
      λ k. ground (arith, lookup-stop_keys keys k s, lookup_absent k s.running) in
    let empty = nothing_left (stop_keys keys s).running absent in
    (
      empty,
      no_goroutine (stop_keys keys s).live (λ g.
          elim (Bool-cases (contains (stop_keys keys s).live g)) [
            | inl live ↦ elim (m.owned g live) [
              | inl (k, inst, found, same) ↦ absurd (cc (sym (absent k), found))
              | inr waits ↦ absurd (cc waits)
            ]
            | inr gone ↦ gone
          ]),
    )
