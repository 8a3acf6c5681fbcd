-- ===== src/Tests/Reconciling.antt =====
-- The ApplyDesire controller on a cluster with one object and a status database in memory.
use rosa_hyperfleet_kube_app.Prelude.{
  ℕ, String, ◌≡◌, ◌≢◌, refl, ◌∙◌, Bool, true, false, Option, none, some, List, [], ◌∷◌, Assoc,
  lookup, insert, lookup-insert, if◌then◌else◌, ◌==◌, string_eq, nat_eq, arith, eq_iff, eq_refl,
}
use rosa_hyperfleet_kube_app.Base.{
  GoError, Result, ok, err, not_found, status_error, errors_join, is_not_found_error,
  as_status_error,
}
use rosa_hyperfleet_kube_app.Api.{ApplyDesire, Condition, ResourceReference, zero_apply_desire}
use rosa_hyperfleet_kube_app.Controllers.Conditions.{
  MetaApi, IsMetaApi, NewCondition, find_status_condition, content_of, set_successful, set_degraded,
}
use rosa_hyperfleet_kube_app.Controllers.Keys.{ApplyDesireKey}
use rosa_hyperfleet_kube_app.Controllers.Cooldown.{Lru, IsLru, can_sync}
use rosa_hyperfleet_kube_app.Controllers.Kube.{KubeApi, IsKubeApi, Object}
use rosa_hyperfleet_kube_app.Controllers.StatusWriter.{Store, update_status}
use rosa_hyperfleet_kube_app.Controllers.StatusWriter.Recorded.{
  IsStatusStore, update_status_records,
}
use rosa_hyperfleet_kube_app.Controllers.ApplyDesire.{
  Controller, evaluate_delete, sync_apply, sync_delete, field_manager, observe,
  classify_as_degraded,
}
use rosa_hyperfleet_kube_app.Controllers.ApplyDesire.Deletion.{
  successful_status, evaluate_delete_sound,
}
use rosa_hyperfleet_kube_app.Controllers.ApplyDesire.Sync.{
  status_content, document_name, key_name, sync_apply_sound, sync_delete_sound,
}

abbrev transition : ℕ → Condition → NewCondition → ℕ
transition now old c = if old.status == c.status then old.last_transition_time else now

abbrev pub set_in : ℕ → List Condition → NewCondition → List Condition
set_in now [] c =
    record {
      type = c.type;
      status = c.status;
      reason = c.reason;
      message = c.message;
      last_transition_time = now;
    }
    ∷ []
set_in now (old ∷ conds) c =
    if old.type == c.type
    then record {
      type = old.type;
      status = c.status;
      reason = c.reason;
      message = c.message;
      last_transition_time = transition now old c;
    }
      ∷ conds
    else old ∷ set_in now conds c

abbrev pub meta : MetaApi
meta = record { set_status_condition = set_in; format_rfc3339 = λ t. "then" }

find_set :
    (now : ℕ) (conds : List Condition) (c : NewCondition)
    → content_of (find_status_condition c.type (set_in now conds c))
      ≡ some (c.status, (c.reason, c.message))
unfolding find_status_condition
find_set now [] c = rw (eq_refl c.type) refl
find_set now (old ∷ conds) c = ground (arith, find_set now conds c)

find_set_other :
    (now : ℕ) (conds : List Condition) (c : NewCondition) (type : String)
    → type ≢ c.type
    → find_status_condition type (set_in now conds c) ≡ find_status_condition type conds
unfolding find_status_condition
find_set_other now [] c type other = ground (arith, eq_iff c.type type)
find_set_other now (old ∷ conds) c type other =
    ground
      (arith, eq_iff old.type type, eq_iff old.type c.type, find_set_other now conds c type other)

pub meta_law : IsMetaApi meta
meta_law = record { find-set = find_set; find-set-other = find_set_other }

-- The status documents, and the one object that the cluster may have.
abbrev World : Type 0
World = Assoc String ApplyDesire × Option Object

abbrev fetched : Option ApplyDesire → Result (Option ApplyDesire)
fetched none = err not_found
fetched (some d) = ok (some d)

abbrev store : Store World ApplyDesireKey ApplyDesire
store = record {
  fetch = λ key w. (fetched (lookup key.name w.0), w);
  replace = λ d w. (none, (insert d.metadata.document_id d w.0, w.1));
  create = λ d w. (none, (insert d.metadata.document_id d w.0, w.1));
  deep_equal = λ a b. false;
  zero_value = zero_apply_desire;
  clock = λ w. 7;
  show_key = λ key. key.name;
}

fetched-ok : (o p : Option ApplyDesire) → fetched o ≡ ok p → o ≡ p
fetched-ok none p h = absurd (cc h)
fetched-ok (some d) p h = cc h

fetched-err : (o : Option ApplyDesire) (e : GoError) → fetched o ≡ err e → o ≡ none
fetched-err none e h = refl
fetched-err (some d) e h = absurd (cc h)

inserted :
    (k : String) (d : ApplyDesire) (m : Assoc String ApplyDesire) → lookup k (insert k d m) ≡ some d
inserted k d m = lookup-insert k k d m ∙ rw (eq_refl k) refl

pub false_true : ◌≢◌ {A = Bool} false true
false_true h = absurd (cc h)

abbrev store_law : IsStatusStore store status_content document_name key_name
store_law = record {
  stored = λ w name. lookup name w.0;
  fetch-ok =
      λ key w o h. (fetched-ok (lookup key.name w.0) o h, fetched-ok (lookup key.name w.0) o h);
  fetch-not_found = λ key w e h missing.
      (fetched-err (lookup key.name w.0) e h, fetched-err (lookup key.name w.0) e h);
  replace-none = λ d w h. (d, inserted d.metadata.document_id d w.0, refl);
  create-none = λ d w h. (d, inserted d.metadata.document_id d w.0, refl);
  deep_equal-content = λ a b h. absurd (false_true h);
}

abbrev missing : GoError
missing = status_error 404 "not found"

abbrev got : Option Object → Result Object
got none = err missing
got (some o) = ok o

abbrev deleted : Option Object → Result (Unit {0})
deleted none = err missing
deleted (some o) = ok tt

abbrev new_object : Object
new_object = record { deletion_timestamp = none; uid = "u"; generation = 3 }

abbrev is_404 : Option ℕ → Bool
is_404 none = false
is_404 (some n) = n == 404

abbrev cluster : KubeApi World
cluster = record {
  get = λ r w. (got w.1, w);
  delete = λ r w. (deleted w.1, (w.0, none));
  apply = λ r raw manager force w. (ok new_object, (w.0, some new_object));
  unmarshal_json = λ raw. none;
  is_not_found = λ e. is_404 (as_status_error e);
  now = λ w. 7;
}

got-err : (o : Option Object) (e : GoError) → got o ≡ err e → o ≡ none
got-err none e h = refl
got-err (some x) e h = absurd (cc h)

got-ok : (o : Option Object) (x : Object) → got o ≡ ok x → o ≡ some x
got-ok none x h = absurd (cc h)
got-ok (some y) x h = cc h

abbrev cluster_law : IsKubeApi cluster
cluster_law = record {
  object_at = λ w r. w.1;
  get-not_found = λ w r e h gone. got-err w.1 e h;
  get-ok = λ w r o h. got-ok w.1 o h;
  delete-not_found = λ w r e h gone. refl;
}

abbrev target : ResourceReference
target = record {
  group = "";
  version = "v1";
  resource = "configmaps";
  namespace = "ns";
  name = "n";
}

abbrev desire_of : String → ApplyDesire
desire_of type = record {
  metadata = record { document_id = "a"; version = 1; update_time = 5; create_time = 5 };
  spec = record {
    management_cluster = "mc";
    cluster_id = "c";
    node_pool_name = "";
    type = type;
    target_item = target;
    server_side_apply = some (record { kube_content = some (record { raw = "{}" }) });
  };
  status = zero_apply_desire.status;
}

abbrev controller : Controller World
controller = record {
  kube = cluster;
  meta = meta;
  fetch_spec = λ name w. (err not_found, w);
  status = store;
}

abbrev key : ApplyDesireKey
key = record { cluster_id = "c"; node_pool_name = ""; name = "a" }

-- No status document yet, and an object in the cluster.
abbrev start : World
start = ([], some new_object)

reported_gone :
    successful_status
      ((evaluate_delete controller (desire_of "Delete") start).0 7 zero_apply_desire)
    ≡ "True"
unfolding evaluate_delete set_successful set_degraded find_status_condition classify_as_degraded
    as_status_error
reported_gone = refl

apply_runs : (sync_apply controller key (desire_of "") start).0 ≡ none
unfolding sync_apply update_status errors_join lookup is_not_found_error
apply_runs = refl

delete_runs : (sync_delete controller key (desire_of "Delete") start).0 ≡ none
unfolding sync_delete update_status lookup is_not_found_error
delete_runs = refl

patch-ne-apply : ◌≢◌ {A = String} "Patch" "ServerSideApply"
patch-ne-apply h = absurd (cc h)

patch-ne-empty : ◌≢◌ {A = String} "Patch" ""
patch-ne-empty h = absurd (cc h)

patch-ne-delete : ◌≢◌ {A = String} "Patch" "Delete"
patch-ne-delete h = absurd (cc h)

evaluate_delete_sound_example :
    cluster_law.object_at (evaluate_delete controller (desire_of "Delete") start).1 target ≡ none
evaluate_delete_sound_example =
    evaluate_delete_sound controller meta_law cluster_law (desire_of "Delete") start 7
      zero_apply_desire reported_gone

update_status_records_example :
    (d : ApplyDesire) × (store_law.stored
        (update_status store key (λ now d. observe (desire_of "") d) start).1
        "a"
      ≡ some d)
    × (status_content d ≡ status_content (observe (desire_of "") zero_apply_desire))
unfolding update_status lookup is_not_found_error
update_status_records_example =
    update_status_records store status_content document_name key_name store_law key
      (λ now d. observe (desire_of "") d) start (λ now d. refl) refl

sync_apply_sound_example :
    (o : Object) × (d : ApplyDesire) × ((cluster.apply target "{}" field_manager true start).0
      ≡ ok o)
    × (store_law.stored (sync_apply controller key (desire_of "") start).1 "a" ≡ some d)
    × (successful_status d ≡ "True")
    × (d.status.applied_resource_generation ≡ o.generation)
    × (d.status.observed_desire_update_time ≡ 5)
sync_apply_sound_example =
    sync_apply_sound controller meta_law store_law key (desire_of "") start refl apply_runs

sync_delete_sound_example :
    (d : ApplyDesire) × (store_law.stored
        (sync_delete controller key (desire_of "Delete") start).1
        "a"
      ≡ some d)
    × (d.status.observed_desire_update_time ≡ 5)
    × (successful_status d ≡ "True"
        → cluster_law.object_at (evaluate_delete controller (desire_of "Delete") start).1 target
          ≡ none)
sync_delete_sound_example =
    sync_delete_sound controller meta_law store_law cluster_law key (desire_of "Delete") start refl
      delete_runs

-- A cache of one entry.
abbrev one_entry : Lru ApplyDesireKey (Option ℕ)
one_entry = record { get = λ k l. (l, l); add = λ k t l. some t }

one_entry_law : IsLru one_entry
one_entry_law = record { get-add = λ k t l. refl; get-get = λ k l. refl }

allowed : (can_sync one_entry 60 100 key none).0 ≡ true
unfolding can_sync
allowed = refl
