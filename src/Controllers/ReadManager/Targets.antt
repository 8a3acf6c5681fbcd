-- ===== src/Controllers/ReadManager/Targets.antt =====
-- What a sync and a delete event make of the controllers that run, and that both are made of the
-- manager's steps.
use std.Path.{subst}
use rosa_hyperfleet_kube_app.Prelude.{
  ℕ, List, String, ◌≡◌, refl, sym, ap, ◌∙◌, inl, inr, Bool, false, Option, none, some, lookup,
  lookup-insert, if◌then◌else◌, ◌==◌, string_eq, eq_iff, eq_refl, arith, Bool-cases, Option-cases,
}
use rosa_hyperfleet_kube_app.Base.{GoError, Result, ok, err, Io, Result-cases, is_not_found_error}
use rosa_hyperfleet_kube_app.Api.{ReadDesire, ResourceReference}
use rosa_hyperfleet_kube_app.Controllers.Keys.{ReadDesireKey, read_desire_key_from_desire}
use rosa_hyperfleet_kube_app.Controllers.ReadManager.{
  RunningInstance, ManagerState, Manager, key_eq, target_eq, key_beq_iff, target_beq_iff,
  stop_by_key, start_instance, manager_sync_once, build_instance, ensure_instance,
}
use rosa_hyperfleet_kube_app.Controllers.ReadManager.Lifecycle.{
  Reach, later, started, stop_by_key-Reach,
}
use rosa_hyperfleet_kube_app.Controllers.ReadManager.Stopping.{lookup-stop_by_key}
use rosa_hyperfleet_kube_app.Controllers.ReadManager.Handlers.{
  deleted_read, delete_key, handle_read_delete,
}

abbrev pub target_of : Option RunningInstance → Option ResourceReference
target_of none = none
target_of (some inst) = some inst.target

-- Which keys have a controller, and for what target.
abbrev pub target_at : ManagerState → ReadDesireKey → Option ResourceReference
target_at s k = target_of (lookup k s.running)

abbrev has_target : Option ResourceReference → ResourceReference → Bool
has_target none t = false
has_target (some u) t = u == t

-- What a key's controller should be, from the result of the spec's Get and what it was.
abbrev pub wanted :
    {W : Type 0}
    → Manager W
    → ReadDesireKey
    → Result (Option ReadDesire)
    → Option ResourceReference
    → Option ResourceReference
wanted c key (err e) old = if is_not_found_error (some e) then none else old
wanted c key (ok none) old = none
wanted c key (ok (some d)) old =
    if has_target old d.spec.target_item
    then some d.spec.target_item
    else elim (c.build key d.spec.target_item d.metadata.update_time) [
      | ok u ↦ some d.spec.target_item
      | err e ↦ none
    ]

target_at-stop_by_key :
    (key k : ReadDesireKey) (s : ManagerState)
    → target_at (stop_by_key key s) k ≡ (if key == k then none else target_at s k)
target_at-stop_by_key key k s = ground (arith, lookup-stop_by_key key k s)

target_at-start_instance :
    (key k : ReadDesireKey) (t : ResourceReference) (s : ManagerState)
    → target_at (start_instance key t s) k ≡ (if key == k then some t else target_at s k)
unfolding start_instance
target_at-start_instance key k t s =
    ground (arith, lookup-insert key k (record { target = t; goroutine = s.next }) s.running)

module _ {W : Type 0} (c : Manager W) (key : ReadDesireKey) where
  target_at-build_instance :
      (d : ReadDesire) (s : ManagerState) (w : W) (k : ReadDesireKey)
      → target_at s key ≡ none
      → target_at (build_instance c key d s w).0.1 k ≡ (
          if key == k
          then elim (c.build key d.spec.target_item d.metadata.update_time) [
            | ok u ↦ some d.spec.target_item
            | err e ↦ none
          ]
          else target_at s k)
  unfolding start_instance
  target_at-build_instance d s w k absent =
      elim (Result-cases (c.build key d.spec.target_item d.metadata.update_time)) [
        | inl (e, failed) ↦
            rw (build_instance, failed)
              (elim (Bool-cases (key == k)) [
                | inl same ↦ rw same (ap (target_at s) (sym ((key_beq_iff key k).0 same)) ∙ absent)
                | inr other ↦ rw other refl
              ])
        | inr (u, built) ↦
            rw (build_instance, built) (target_at-start_instance key k d.spec.target_item s)
      ]

  target_at-ensure_instance :
      (d : ReadDesire) (s : ManagerState) (w : W) (k : ReadDesireKey)
      → target_at (ensure_instance c key d (lookup key s.running) s w).0.1 k
        ≡ (if key == k then wanted c key (ok (some d)) (target_at s key) else target_at s k)
  target_at-ensure_instance d s w k = elim (Option-cases (lookup key s.running)) [
    | inl absent ↦
        rw (ensure_instance, absent) (target_at-build_instance d s w k (ap target_of absent))
    | inr (cur, here) ↦ elim (Bool-cases (cur.target == d.spec.target_item)) [
      | inl equal ↦
          rw (ensure_instance, here, equal)
            (elim (Bool-cases (key == k)) [
              | inl same ↦ rw same (
                  ap (target_at s) (sym ((key_beq_iff key k).0 same))
                  ∙ ap target_of here
                  ∙ ap some ((target_beq_iff cur.target d.spec.target_item).0 equal))
              | inr other ↦ rw other refl
            ])
      | inr changed ↦
          rw (ensure_instance, here, changed)
            (target_at-build_instance d (stop_by_key key s) w k
                (target_at-stop_by_key key key s ∙ rw ((key_beq_iff key key).1 refl) refl)
              ∙ elim (Bool-cases (key == k)) [
                | inl same ↦ rw same refl
                | inr other ↦ rw other (target_at-stop_by_key key k s ∙ rw other refl)
              ])
    ]
  ]

  -- After a sync of a key, on every branch, the key's controller is what the result of the spec's Get
  -- asks for: none if there is no spec or the factory refuses its target, one for the spec's target
  -- otherwise, and what it was if the Get fails. No other key's controller changes.
  pub manager_sync_once_manages :
      (s : ManagerState) (w : W) (k : ReadDesireKey)
      → target_at (manager_sync_once c key s w).0.1 k ≡ (
          if key == k
          then wanted c key (c.fetch_spec key.name w).0 (target_at s key)
          else target_at s k)
  unfolding manager_sync_once
  manager_sync_once_manages s w k = elim (Result-cases (c.fetch_spec key.name w).0) [
    | inl (e, failed) ↦ elim (Bool-cases (is_not_found_error (some e))) [
      | inl missing ↦ rw (manager_sync_once, failed, missing) (target_at-stop_by_key key k s)
      | inr broken ↦
          rw (manager_sync_once, failed, broken)
            (elim (Bool-cases (key == k)) [
              | inl same ↦ rw same (ap (target_at s) (sym ((key_beq_iff key k).0 same)))
              | inr other ↦ rw other refl
            ])
    ]
    | inr (none, found) ↦ rw (manager_sync_once, found) (target_at-stop_by_key key k s)
    | inr (some d, found) ↦
        rw (manager_sync_once, found) (target_at-ensure_instance d s (c.fetch_spec key.name w).1 k)
  ]

  build_instance-Reach :
      (d : ReadDesire) (s : ManagerState) (stopping : List ℕ) (w : W)
      → lookup key s.running ≡ none
      → Reach (record { manager = s; stopping = stopping })
      → Reach (record { manager = (build_instance c key d s w).0.1; stopping = stopping })
  build_instance-Reach d s stopping w absent r =
      elim (Result-cases (c.build key d.spec.target_item d.metadata.update_time)) [
        | inl (e, failed) ↦ rw (build_instance, failed) r
        | inr (u, built) ↦
            rw (build_instance, built) (later _ _ r (started key d.spec.target_item absent))
      ]

  abbrev Reaches : ManagerState → Type 0
  Reaches s = (stopping : List ℕ) × Reach (record { manager = s; stopping = stopping })

  ensure_instance-Reach :
      (d : ReadDesire) (s : ManagerState) (w : W)
      → Reaches s
      → Reaches (ensure_instance c key d (lookup key s.running) s w).0.1
  ensure_instance-Reach d s w (stopping, r) = elim (Option-cases (lookup key s.running)) [
    | inl absent ↦
        rw (ensure_instance, absent) (stopping, build_instance-Reach d s stopping w absent r)
    | inr (cur, here) ↦ elim (Bool-cases (cur.target == d.spec.target_item)) [
      | inl equal ↦ rw (ensure_instance, here, equal) (stopping, r)
      | inr changed ↦
          let (stopping', r') = stop_by_key-Reach key _ r in
          rw (ensure_instance, here, changed)
            (
              stopping',
              build_instance-Reach d (stop_by_key key s) stopping' w
                  (lookup-stop_by_key key key s ∙ rw ((key_beq_iff key key).1 refl) refl) r',
            )
    ]
  ]

  -- A sync that nothing interrupts takes a reachable state of the manager to a reachable state.
  pub manager_sync_once-Reach :
      (s : ManagerState) (w : W) → Reaches s → Reaches (manager_sync_once c key s w).0.1
  unfolding manager_sync_once
  manager_sync_once-Reach s w (stopping, r) = elim (Result-cases (c.fetch_spec key.name w).0) [
    | inl (e, failed) ↦ elim (Bool-cases (is_not_found_error (some e))) [
      | inl missing ↦ rw (manager_sync_once, failed, missing) (stop_by_key-Reach key _ r)
      | inr broken ↦ rw (manager_sync_once, failed, broken) (stopping, r)
    ]
    | inr (none, found) ↦ rw (manager_sync_once, found) (stop_by_key-Reach key _ r)
    | inr (some d, found) ↦
        rw (manager_sync_once, found)
          (ensure_instance-Reach d s (c.fetch_spec key.name w).1 (stopping, r))
  ]

delete_key-own :
    (d : ReadDesire) (key : ReadDesireKey)
    → read_desire_key_from_desire d ≡ ok key
    → (delete_key d == key) ≡ (d.spec.node_pool_name == "")
unfolding read_desire_key_from_desire
delete_key-own d key own = elim (Bool-cases (d.metadata.document_id == "")) [
  | inl empty ↦ absurd (cc (rw (read_desire_key_from_desire, empty) at own))
  | inr named ↦
      let own_key : ReadDesireKey = record {
        cluster_id = d.spec.cluster_id;
        node_pool_name = d.spec.node_pool_name;
        name = d.metadata.document_id;
      } in
      let same : own_key ≡ key = cc (rw (read_desire_key_from_desire, named) at own) in
      subst (λ (k : ReadDesireKey). (delete_key d == k) ≡ (d.spec.node_pool_name == "")) same
        (ground (
          arith,
          eq_refl d.spec.cluster_id,
          eq_refl d.metadata.document_id,
          eq_iff "" d.spec.node_pool_name,
          eq_iff d.spec.node_pool_name "",
        ))
]

-- The deletion of a desire whose key is valid stops the controller of that key if the desire names no
-- node pool. If it names one, the controller stays as it was.
pub handle_read_delete_stops :
    {W : Type 0} (delete : String → Io W (Option GoError)) (d : ReadDesire) (key : ReadDesireKey)
    (s : ManagerState) (w : W)
    → read_desire_key_from_desire d ≡ ok key
    → lookup key (handle_read_delete delete (deleted_read d) s w).0.running
      ≡ (if d.spec.node_pool_name == "" then none else lookup key s.running)
unfolding handle_read_delete
handle_read_delete_stops delete d key s w own =
    lookup-stop_by_key (delete_key d) key s ∙ rw (delete_key-own d key own) refl
