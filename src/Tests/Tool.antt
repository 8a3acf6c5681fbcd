-- ===== src/Tests/Tool.antt =====
-- The commands of the tool on a specs table in memory, and the wait for a status that comes late.
use std.Path.{subst}
use rosa_hyperfleet_kube_app.Prelude.{
  ℕ, ◌+◌, ◌≤◌, ◌<◌, String, ◌≡◌, refl, inl, true, none, some, [], ◌∷◌, Assoc, lookup, if◌then◌else◌,
  ltb, ◌==◌, string_eq, arith,
}
use rosa_hyperfleet_kube_app.Base.{
  concat, Result, ok, err, not_found, is_not_found_error, is_already_exists_error,
}
use rosa_hyperfleet_kube_app.Api.{
  ApplyDesire, ReadDesire, ReadDesireStatus, ResourceReference, zero_apply_desire, zero_read_desire,
  apply_desire,
}
use rosa_hyperfleet_kube_app.Database.Client.{ResourceCrud, KubeApplierDb}
use rosa_hyperfleet_kube_app.Desirectl.Config.{Context}
use rosa_hyperfleet_kube_app.Desirectl.ResourceTypes.{
  ResourceInfo, resource_type_from_manifest, resolve_resource_type, resource_ref_from_gvr,
}
use rosa_hyperfleet_kube_app.Desirectl.Desires.{
  ClientPair, Libraries, document_of, new_document_id, resource_ref_from_manifest,
  format_resource_name, spec_part,
}
use rosa_hyperfleet_kube_app.Desirectl.Applying.{apply_manifest, with_manifest}
use rosa_hyperfleet_kube_app.Desirectl.Applying.Written.{apply_manifest_stores}
use rosa_hyperfleet_kube_app.Desirectl.Deleting.{run_delete, write_delete_desire}
use rosa_hyperfleet_kube_app.Desirectl.Deleting.Lost.{run_delete_forgets}
use rosa_hyperfleet_kube_app.Desirectl.Getting.{Clock, poll_read_desire_status}
use rosa_hyperfleet_kube_app.Desirectl.Getting.Awaited.{
  IsClock, IsObserved, poll_read_desire_status_ends,
}
use rosa_hyperfleet_kube_app.Desirectl.Getting.Served.{IsServed, poll_read_desire_status_serves}
use rosa_hyperfleet_kube_app.Tests.Kept.{kept_crud, kept_law}

-- Every JSON object is of kind ConfigMap, and every other field holds its own name.
abbrev pub lib : Libraries String
lib = record {
  unmarshal_object = λ raw. ok raw;
  member = λ obj key. some (if key == "kind" then "ConfigMap" else key);
  as_string = λ v. some v;
  as_object = λ v. some v;
  strings = record { to_lower = λ s. s; equal_fold = λ a b. a == b };
  trim_s = λ s. s;
  new_sha1 = λ s. s;
  yaml_to_json = λ s. ok s;
  show_number = λ n. "some";
}

abbrev pub World : Type 0
World = Assoc String ApplyDesire

-- A table with no read desires, on which writes have no effect.
abbrev no_reads : ResourceCrud World ReadDesire
no_reads = record {
  get = λ id w. (err not_found, w);
  list = λ w. (ok [], w);
  create = λ d w. (ok d, w);
  replace = λ d w. (ok d, w);
  delete = λ id w. (none, w);
}

abbrev db : KubeApplierDb World
db = record {
  apply_desire_specs = record { get = λ id w. (err not_found, w); list = λ w. (ok [], w) };
  read_desire_specs = record { get = λ id w. (err not_found, w); list = λ w. (ok [], w) };
  apply_desire_status = kept_crud;
  read_desire_status = no_reads;
}

abbrev pub clients : ClientPair World
clients = record { specs_db = db; status_db = db }

abbrev pub active : Context
active = record {
  aws_region = "us-east-1";
  endpoint_url = "";
  management_cluster = "mc";
  cluster_id = "c";
  node_pool = "";
  namespace = "";
  specs_table_prefix = "";
  status_table_prefix = "";
}

abbrev ref : ResourceReference
ref = record {
  group = "";
  version = "v1";
  resource = "configmaps";
  namespace = "namespace";
  name = "name";
}

abbrev document : String
document = "desirectl//v1/configmaps/namespace/name"

-- A desire to delete the config map is stored.
abbrev deleting : ApplyDesire
deleting = record zero_apply_desire {
  metadata = record { document_id = document; version = 1; update_time = 5; create_time = 5 };
  spec = record zero_apply_desire.spec { type = "Delete"; target_item = ref };
}

abbrev pub start : World
start = (document, deleting) ∷ []

manifest_named : resource_ref_from_manifest lib "{}" ≡ ok ref
unfolding resource_ref_from_manifest resource_type_from_manifest
manifest_named = refl

own_document :
    (d : ApplyDesire)
    → lookup (document_of lib ref) start ≡ some d
    → d.metadata.document_id ≡ document_of lib ref
unfolding lookup document_of new_document_id concat
own_document d h =
    let same : deleting ≡ d = cc h in
    subst (λ (x : ApplyDesire). x.metadata.document_id ≡ document_of lib ref) same refl

apply_runs : (apply_manifest lib clients active "{}" start).0 ≡ ok ("configured", "configmaps/name")
unfolding apply_manifest resource_ref_from_manifest resource_type_from_manifest document_of
    new_document_id lookup is_already_exists_error resolve_resource_type format_resource_name concat
apply_runs = refl

-- The manifest is applied, and the desire still deletes.
apply_manifest_stores_example :
    (d : ApplyDesire) × (lookup
        (document_of lib ref)
        (apply_manifest lib clients active "{}" start).1
      ≡ some d)
    × (d.spec ≡ with_manifest active ref "{}" deleting.spec)
unfolding lookup document_of new_document_id concat
apply_manifest_stores_example =
    apply_manifest_stores lib clients active (λ d. d.spec) (kept_law (λ d. d.spec)) ref "{}" start
      ("configured", "configmaps/name") manifest_named own_document apply_runs

abbrev config_map : ResourceInfo
config_map = record {
  group = "";
  version = "v1";
  resource = "configmaps";
  kind = "ConfigMap";
  aliases = [];
}

delete_runs : (run_delete lib clients active config_map "name" "namespace" []).0 ≡ none
unfolding run_delete write_delete_desire document_of new_document_id lookup resource_ref_from_gvr
delete_runs = refl

run_delete_forgets_example :
    lookup
      (document_of lib (resource_ref_from_gvr config_map "namespace" "name"))
      (run_delete lib clients active config_map "name" "namespace" []).1
    ≡ none
run_delete_forgets_example =
    run_delete_forgets lib clients active (kept_law spec_part) config_map "name" "namespace" []
      (λ id w. refl) (λ id id' w. refl) delete_runs

-- The world is the time, and the status comes at 300.
abbrev clock : Clock ℕ
clock = record { now = λ w. w; sleep = λ interval w. w + interval }

abbrev observed : ReadDesire
observed = record zero_read_desire {
  status = record zero_read_desire.status { observed_desire_update_time = 7 };
}

abbrev statuses : ResourceCrud ℕ ReadDesire
statuses = record {
  get = λ id w. (if ltb w 300 then err not_found else ok observed, w);
  list = λ w. (ok [], w);
  create = λ d w. (ok d, w);
  replace = λ d w. (ok d, w);
  delete = λ id w. (none, w);
}

clock_law : IsClock clock statuses
clock_law = record { get-now = λ id w. omega arith; sleep-now = λ interval w. omega arith }

missing_before : (w : ℕ) → w < 300 → (statuses.get "a" w).0 ≡ err not_found
missing_before w h = ground arith

there_after : (w : ℕ) → 300 ≤ w → (statuses.get "a" w).0 ≡ ok observed
there_after w h = ground arith

missing_seen : is_not_found_error (some not_found) ≡ true
unfolding is_not_found_error
missing_seen = refl

served : IsServed clock statuses "a" 7 300 0
served = record {
  get-slow = λ w. omega arith;
  early = λ w before. inl (not_found, missing_before w before, missing_seen);
  timely = λ w after. (observed, there_after w after, refl, tt);
}

poll_read_desire_status_ends_example :
    (r : Result ReadDesireStatus) × ((poll_read_desire_status clock statuses "a" 7 1000 7 0).0
      ≡ some r)
poll_read_desire_status_ends_example =
    poll_read_desire_status_ends clock statuses "a" 7 1000 6 0 clock_law (omega arith)

poll_read_desire_status_serves_example :
    (s : ReadDesireStatus) × ((poll_read_desire_status clock statuses "a" 7 1000 7 0).0
      ≡ some (ok s))
    × IsObserved statuses "a" 7 s
poll_read_desire_status_serves_example =
    poll_read_desire_status_serves clock statuses "a" 7 1000 6 300 0 0 clock_law (omega arith)
      served (omega arith)
