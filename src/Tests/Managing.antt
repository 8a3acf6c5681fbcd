-- ===== src/Tests/Managing.antt =====
-- The manager of the read desires and one of its controllers, on a status database in memory.
use rosa_hyperfleet_kube_app.Prelude.{
  String, ◌≡◌, refl, true, false, none, some, [], ◌∷◌, Assoc, lookup, insert, remove, string_eq,
}
use rosa_hyperfleet_kube_app.Base.{ok, is_not_found_error}
use rosa_hyperfleet_kube_app.Api.{ReadDesire, ResourceReference, zero_read_desire, read_desire}
use rosa_hyperfleet_kube_app.Controllers.Keys.{ReadDesireKey, read_desire_key_from_desire}
use rosa_hyperfleet_kube_app.Controllers.StatusWriter.{Store, update_status}
use rosa_hyperfleet_kube_app.Controllers.StatusWriter.Recorded.{IsStatusStore}
use rosa_hyperfleet_kube_app.Controllers.ReadKubernetes.{
  Services, Instance, Informer, unstructured, observed, raw_of, read_sync_once,
}
use rosa_hyperfleet_kube_app.Controllers.ReadKubernetes.Mirrored.{
  read_content, json_value, read_document_name, read_key_name, read_successful,
  read_sync_once_mirrors,
}
use rosa_hyperfleet_kube_app.Controllers.ReadManager.{
  Manager, no_controllers, key_eq, start_instance, real_build, manager_sync_once,
}
use rosa_hyperfleet_kube_app.Controllers.ReadManager.Lifecycle.{
  Shared, shared_start, take, taken, Reach, begin, later, started, IsManaged, Reach-IsManaged,
}
use rosa_hyperfleet_kube_app.Controllers.ReadManager.Handlers.{deleted_read, handle_read_delete}
use rosa_hyperfleet_kube_app.Controllers.ReadManager.Targets.{
  target_at, manager_sync_once_manages, handle_read_delete_stops,
}
use rosa_hyperfleet_kube_app.Controllers.StatusWriter.Backed.{crud_store, crud_store-IsStatusStore}
use rosa_hyperfleet_kube_app.Tests.Kept.{kept_crud, kept_law}
use rosa_hyperfleet_kube_app.Tests.Memory.{text_json}
use rosa_hyperfleet_kube_app.Tests.Reconciling.{meta, meta_law, false_true}

abbrev World : Type 0
World = Assoc String ReadDesire

abbrev name_of : ReadDesireKey → String
name_of k = k.name

abbrev store : Store World ReadDesireKey ReadDesire
store = crud_store kept_crud name_of (λ a b. false) zero_read_desire (λ w. 7) name_of

crud_store-IsStatusStore_example :
    IsStatusStore store (read_content text_json) read_document_name name_of
crud_store-IsStatusStore_example =
    crud_store-IsStatusStore kept_crud name_of (λ a b. false) zero_read_desire (λ w. 7) name_of
      (read_content text_json) (kept_law (read_content text_json)) (λ a b h. absurd (false_true h))

abbrev store_law : IsStatusStore store (read_content text_json) read_document_name read_key_name
store_law =
    crud_store-IsStatusStore kept_crud name_of (λ a b. false) zero_read_desire (λ w. 7) name_of
      (read_content text_json) (kept_law (read_content text_json)) (λ a b h. absurd (false_true h))

abbrev target : ResourceReference
target = record {
  group = "";
  version = "v1";
  resource = "configmaps";
  namespace = "ns";
  name = "n";
}

abbrev key_in : String → ReadDesireKey
key_in pool = record { cluster_id = "c"; node_pool_name = pool; name = "a" }

abbrev services : Services World
services = record { meta = meta; status = store }

abbrev instance_a : Instance
instance_a = record { key = key_in ""; target = target; spec_update_time = 5; namespaced = true }

-- The object is there.
abbrev informer : Informer World
informer = record { has_synced = λ w. true; get_by_key = λ k w. ok (some (unstructured (ok "{}"))) }

object_seen : observed services instance_a informer (store.fetch (key_in "") []).1 ≡ ok (some "{}")
unfolding observed crud_store
object_seen = refl

sync_runs : (read_sync_once services instance_a informer []).0 ≡ none
unfolding read_sync_once update_status lookup is_not_found_error crud_store
sync_runs = refl

read_sync_once_mirrors_example :
    (d : ReadDesire) × (store_law.stored (read_sync_once services instance_a informer []).1 "a"
      ≡ some d)
    × (json_value text_json (raw_of d.status.kube_content) ≡ json_value text_json "{}")
    × (read_successful d.status ≡ "True")
    × (d.status.observed_desire_update_time ≡ 5)
unfolding crud_store
read_sync_once_mirrors_example =
    read_sync_once_mirrors text_json services instance_a meta_law store_law informer (some "{}") []
      refl refl object_seen sync_runs

abbrev desire_in : String → ReadDesire
desire_in pool = record {
  metadata = record { document_id = "a"; version = 1; update_time = 5; create_time = 5 };
  spec = record {
    management_cluster = "mc";
    cluster_id = "c";
    node_pool_name = pool;
    target_item = target;
  };
  status = zero_read_desire.status;
}

-- Every Get finds the desire.
abbrev manager : Manager World
manager = record {
  fetch_spec = λ name w. (ok (some (desire_in "p")), w);
  build = real_build;
  meta = meta;
  status = store;
}

-- A controller is started, its goroutine is taken out of the map, and a second one is started for the key
-- while the first has not ended.
abbrev one_started : Shared
one_started = record { manager = start_instance (key_in "p") target no_controllers; stopping = [] }

abbrev one_taken : Shared
one_taken = take (key_in "p") one_started

abbrev restarted : Shared
restarted = record one_taken { manager = start_instance (key_in "p") target one_taken.manager }

reached : Reach restarted
unfolding lookup take start_instance insert remove
reached =
    later one_taken restarted
      (later one_started one_taken
        (later shared_start one_started begin (started (key_in "p") target refl))
        (taken (key_in "p")))
      (started (key_in "p") target refl)

two_goroutines : (restarted.manager.live ≡ 1 ∷ 0 ∷ []) × (restarted.stopping ≡ 0 ∷ [])
unfolding lookup take start_instance insert remove
two_goroutines = (refl, refl)

Reach-IsManaged_example : IsManaged restarted
Reach-IsManaged_example = Reach-IsManaged restarted reached

manager_sync_once_manages_example :
    target_at (manager_sync_once manager (key_in "p") no_controllers []).0.1 (key_in "p")
    ≡ some target
unfolding lookup real_build
manager_sync_once_manages_example =
    manager_sync_once_manages manager (key_in "p") no_controllers [] (key_in "p")

own_key : read_desire_key_from_desire (desire_in "p") ≡ ok (key_in "p")
unfolding read_desire_key_from_desire
own_key = refl

-- The controller of a deleted desire that names a node pool stays.
handle_read_delete_stops_example :
    lookup
      (key_in "p")
      (handle_read_delete
        (kept_crud {T = ReadDesire}).delete
        (deleted_read (desire_in "p"))
        one_started.manager
        []).0.running
    ≡ lookup (key_in "p") one_started.manager.running
handle_read_delete_stops_example =
    handle_read_delete_stops (kept_crud {T = ReadDesire}).delete (desire_in "p") (key_in "p")
      one_started.manager [] own_key
