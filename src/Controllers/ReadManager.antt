-- ===== src/Controllers/ReadManager.antt =====
-- pkg/controllers/read_desire_manager/controller.go: the manager that keeps one running controller per
-- ReadDesire. Its mutex makes each look at the map one step; stopping a controller waits for its
-- goroutine to end, so that a stop is one step too.
pub mod Lifecycle
pub mod Targets
pub mod Stopping
pub mod Handlers
use std.Path.{subst}
use rosa_hyperfleet_kube_app.Prelude.{
  ℕ, suc, ◌+◌, String, Bool, true, false, not, ◌&&◌, Option, none, some, List, [], ◌∷◌, Assoc,
  lookup, insert, remove, if◌then◌else◌, ◌==◌, Eq, string_eq, nat_eq, map, ◌≡◌, ◌↔◌, eq_iff,
  eq_refl, arith,
}
use rosa_hyperfleet_kube_app.Base.{GoError, Result, ok, err, ◌>>=◌, Io, is_not_found_error}
use rosa_hyperfleet_kube_app.Api.{
  ReadDesire, ReadDesireStatus, DynamoDbMetadata, ResourceReference, get_document_id, read_desire,
}
use rosa_hyperfleet_kube_app.Controllers.Conditions.{MetaApi, set_successful}
use rosa_hyperfleet_kube_app.Controllers.Cooldown.{Lru, can_sync}
use rosa_hyperfleet_kube_app.Controllers.Keys.{ReadDesireKey, read_desire_key_from_desire}
use rosa_hyperfleet_kube_app.Controllers.ReadKubernetes.{new_instance}
use rosa_hyperfleet_kube_app.Controllers.StatusWriter.{Store, MutateFunc, update_status}

-- `==` on the two structs, field by field.
abbrev key_beq : ReadDesireKey → ReadDesireKey → Bool
key_beq a b =
    (a.cluster_id == b.cluster_id) && ((a.node_pool_name == b.node_pool_name) && (a.name == b.name))

key_fields :
    (a b : ReadDesireKey)
    → a.cluster_id ≡ b.cluster_id
    → a.node_pool_name ≡ b.node_pool_name
    → a.name ≡ b.name
    → a ≡ b
key_fields a b p q r = λ i. record { cluster_id = p i; node_pool_name = q i; name = r i }

pub key_beq_iff : (a b : ReadDesireKey) → (key_beq a b ≡ true) ↔ (a ≡ b)
key_beq_iff a b = (
  λ same.
      key_fields a b ((eq_iff a.cluster_id b.cluster_id).0 (ground (arith, same)))
        ((eq_iff a.node_pool_name b.node_pool_name).0 (ground (arith, same)))
        ((eq_iff a.name b.name).0 (ground (arith, same))),
  λ same.
      subst (λ x. key_beq a x ≡ true) same
        (ground (arith, eq_refl a.cluster_id, eq_refl a.node_pool_name, eq_refl a.name)),
)

instance abbrev pub key_eq : Eq ReadDesireKey
key_eq = record { beq = key_beq; beq_iff = key_beq_iff }

abbrev target_beq : ResourceReference → ResourceReference → Bool
target_beq a b =
    (a.group == b.group)
    && ((a.version == b.version)
        && ((a.resource == b.resource) && ((a.namespace == b.namespace) && (a.name == b.name))))

target_fields :
    (a b : ResourceReference)
    → a.group ≡ b.group
    → a.version ≡ b.version
    → a.resource ≡ b.resource
    → a.namespace ≡ b.namespace
    → a.name ≡ b.name
    → a ≡ b
target_fields a b p q r s t =
    λ i. record { group = p i; version = q i; resource = r i; namespace = s i; name = t i }

pub target_beq_iff : (a b : ResourceReference) → (target_beq a b ≡ true) ↔ (a ≡ b)
target_beq_iff a b = (
  λ same.
      target_fields a b ((eq_iff a.group b.group).0 (ground (arith, same)))
        ((eq_iff a.version b.version).0 (ground (arith, same)))
        ((eq_iff a.resource b.resource).0 (ground (arith, same)))
        ((eq_iff a.namespace b.namespace).0 (ground (arith, same)))
        ((eq_iff a.name b.name).0 (ground (arith, same))),
  λ same.
      subst (λ x. target_beq a x ≡ true) same
        (ground (
          arith,
          eq_refl a.group,
          eq_refl a.version,
          eq_refl a.resource,
          eq_refl a.namespace,
          eq_refl a.name,
        )),
)

instance abbrev pub target_eq : Eq ResourceReference
target_eq = record { beq = target_beq; beq_iff = target_beq_iff }

-- A running controller: its target, and its goroutine, which has a number of its own.
pub record RunningInstance : Type 0 where
  pub target : ResourceReference
  pub goroutine : ℕ

-- `live` are the goroutines that have not ended; `next` numbers the next one.
pub record ManagerState : Type 0 where
  pub running : Assoc ReadDesireKey RunningInstance
  pub live : List ℕ
  pub next : ℕ

abbrev pub no_controllers : ManagerState
no_controllers = record { running = []; live = []; next = 0 }

unfoldable pub without : ℕ → List ℕ → List ℕ
without g [] = []
without g (h ∷ hs) = let rest = without g hs in if h == g then rest else h ∷ rest

-- What stopByKey does under the mutex: it looks the controller up and deletes it from the map.
abbrev pub take_found :
    ReadDesireKey → Option RunningInstance → ManagerState → Option RunningInstance × ManagerState
take_found key none s = (none, s)
take_found key (some cur) s = (some cur, record s { running = remove key s.running })

unfoldable pub take_instance : ReadDesireKey → ManagerState → Option RunningInstance × ManagerState
take_instance key s = take_found key (lookup key s.running) s

-- cur.cancel(); <-cur.done
abbrev pub end_found : Option RunningInstance → ManagerState → ManagerState
end_found none s = s
end_found (some cur) s = record s { live = without cur.goroutine s.live }

-- stopByKey while nothing else steps.
unfoldable pub stop_by_key : ReadDesireKey → ManagerState → ManagerState
unfolding without take_instance
stop_by_key key s = let (cur, s') = take_instance key s in end_found cur s'

abbrev stop_keys : List ReadDesireKey → ManagerState → ManagerState
stop_keys [] s = s
stop_keys (key ∷ keys) s = stop_keys keys (stop_by_key key s)

unfoldable pub stop_all : ManagerState → ManagerState
unfolding stop_by_key
stop_all s = stop_keys (map (λ e. e.0) s.running) s

-- c.running[key] = &runningInstance{…}; go per.Run(childCtx)
unfoldable pub start_instance : ReadDesireKey → ResourceReference → ManagerState → ManagerState
start_instance key target s = record {
  running = insert key (record { target = target; goroutine = s.next }) s.running;
  live = s.next ∷ s.live;
  next = suc s.next;
}

-- realPerInstanceFactory's Build.
unfoldable pub real_build : ReadDesireKey → ResourceReference → ℕ → Result (Unit {0})
unfolding new_instance
real_build key target spec_update_time = new_instance key target spec_update_time >>= λ per. ok tt

-- What the manager is built on: the specs database's Get, the factory, of whose result only the error
-- matters here, and what the status writer needs.
pub record Manager (W : Type 0) : Type 0 where
  pub fetch_spec : String → Io W (Result (Option ReadDesire))
  pub build : ReadDesireKey → ResourceReference → ℕ → Result (Unit {0})
  pub meta : MetaApi
  pub status : Store W ReadDesireKey ReadDesire

module _ {W : Type 0} (c : Manager W) where
  abbrev report_build : ReadDesire → GoError → MutateFunc ReadDesire
  report_build desire e now d = record d {
    metadata = record d.metadata { document_id = get_document_id desire };
    status = record d.status {
      observed_desire_update_time = desire.metadata.update_time;
      conditions = set_successful c.meta now (some e) d.status.conditions;
    };
  }

  -- From the call of the factory on.
  abbrev build_instance :
      ReadDesireKey → ReadDesire → ManagerState → W → (Option GoError × ManagerState) × W
  build_instance key desire s w =
      elim (c.build key desire.spec.target_item desire.metadata.update_time) [
        | err e ↦ let (r, w') = update_status c.status key (report_build desire e) w in ((r, s), w')
        | ok u ↦ ((none, start_instance key desire.spec.target_item s), w)
      ]

  abbrev ensure_instance :
      ReadDesireKey
      → ReadDesire
      → Option RunningInstance
      → ManagerState
      → W
      → (Option GoError × ManagerState) × W
  ensure_instance key desire none s w = build_instance key desire s w
  ensure_instance key desire (some cur) s w =
      if cur.target == desire.spec.target_item
      then ((none, s), w)
      else build_instance key desire (stop_by_key key s) w

  unfoldable pub manager_sync_once :
      ReadDesireKey → ManagerState → W → (Option GoError × ManagerState) × W
  unfolding stop_by_key start_instance
  manager_sync_once key s w =
      let (r, w') = c.fetch_spec key.name w in
      elim r [
        | err e ↦ elim (is_not_found_error (some e)) [
          | true ↦ ((none, stop_by_key key s), w')
          | false ↦ ((some e, s), w')
        ]
        | ok none ↦ ((none, stop_by_key key s), w')
        | ok (some desire) ↦ ensure_instance key desire (lookup key s.running) s w'
      ]
