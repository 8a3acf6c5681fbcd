-- ===== src/Application.antt =====
-- cmd/root.go: the flags of the kube-applier, their check, and the tables that they name.
pub mod Meeting
pub mod Options
pub mod Running
use rosa_hyperfleet_kube_app.Prelude.{
  ℕ, String, Bool, true, Option, none, some, [], ◌∷◌, if◌then◌else◌, ltb, ◌==◌, string_eq,
}
use rosa_hyperfleet_kube_app.Prelude.Int.{ℤ, pos, negsuc}
use rosa_hyperfleet_kube_app.Base.{GoError, plain, concat}
use rosa_hyperfleet_kube_app.Database.Client.{Access, KubeApplierDb, new_kube_applier_db}

-- Durations are in milliseconds; a zero or negative one of the source is 0, and means the default.
pub record KubeApplierRootCmdFlags : Type 0 where
  pub kubeconfig : String
  pub kube_namespace : String
  pub management_cluster : String
  pub aws_region : String
  pub aws_endpoint_url : String
  pub specs_table_prefix : String
  pub status_table_prefix : String
  pub metrics_server_listen_address : String
  pub healthz_server_listen_address : String
  pub leader_election_id : String
  pub log_verbosity : ℤ
  pub exit_on_panic : Bool
  pub kube_qps : ℕ
  pub kube_burst : ℕ
  pub watcher_poll_interval : ℕ
  pub watcher_relist_interval : ℕ
  pub watcher_max_lookback : ℕ

abbrev pub new_kube_applier_root_cmd_flags : KubeApplierRootCmdFlags
new_kube_applier_root_cmd_flags = record {
  kubeconfig = "";
  kube_namespace = "";
  management_cluster = "";
  aws_region = "";
  aws_endpoint_url = "";
  specs_table_prefix = "";
  status_table_prefix = "";
  metrics_server_listen_address = ":8081";
  healthz_server_listen_address = ":8083";
  leader_election_id = "kube-applier";
  log_verbosity = pos 0;
  exit_on_panic = true;
  kube_qps = 250;
  kube_burst = 500;
  watcher_poll_interval = 0;
  watcher_relist_interval = 0;
  watcher_max_lookback = 0;
}

abbrev check_verbosity : ℤ → Option GoError
check_verbosity (pos n) = none
check_verbosity (negsuc n) = some (plain "--log-verbosity must be >= 0")

unfoldable pub validate : KubeApplierRootCmdFlags → Option GoError
validate f =
    if f.management_cluster == ""
    then some (plain "--management-cluster must not be empty")
    else if f.aws_region == ""
    then some (plain "--aws-region must not be empty")
    else if f.kube_namespace == ""
    then some (plain "--namespace must not be empty")
    else if f.leader_election_id == ""
    then some (plain "--leader-election-id must not be empty")
    else check_verbosity f.log_verbosity

abbrev pub flags_specs_prefix : KubeApplierRootCmdFlags → String
flags_specs_prefix f =
    if f.specs_table_prefix == ""
    then concat ("mc-" ∷ f.management_cluster ∷ "-specs" ∷ [])
    else f.specs_table_prefix

abbrev pub flags_status_prefix : KubeApplierRootCmdFlags → String
flags_status_prefix f =
    if f.status_table_prefix == ""
    then concat ("mc-" ∷ f.management_cluster ∷ "-status" ∷ [])
    else f.status_table_prefix

-- The database handle of ToKubeApplierOptions, with its two clients.
unfoldable pub options_db :
    {W V : Type 0} → Access W V → Access W V → KubeApplierRootCmdFlags → KubeApplierDb W
options_db specs_client status_client f =
    new_kube_applier_db specs_client status_client (flags_specs_prefix f) (flags_status_prefix f)
