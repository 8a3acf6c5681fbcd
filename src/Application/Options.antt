-- ===== src/Application/Options.antt =====
-- cmd/root.go: ToKubeApplierOptions and RunRootCmd. The constructors of client-go and of the AWS SDK are
-- parameters, each with its error.
use std.Path.{subst}
use rosa_hyperfleet_kube_app.Prelude.{ℕ, String, ◌≡◌, refl, Bool, Option, none, some, string_eq}
use rosa_hyperfleet_kube_app.Base.{GoError, wrap, wrapping, Result, ok, err, ◌>>=◌}
use rosa_hyperfleet_kube_app.Api.{apply_desire, read_desire}
use rosa_hyperfleet_kube_app.Dynamo.Watcher
use rosa_hyperfleet_kube_app.Database.Client.{
  Access, KubeApplierDb, new_kube_applier_db, dynamo_spec_reader, dynamo_crud, apply_backend,
  read_backend, table_name, table_suffix_apply_desires, table_suffix_read_desires,
}
use rosa_hyperfleet_kube_app.Database.Items.Assembly.{>>=-eq-ok, wrapping-eq-ok}
use rosa_hyperfleet_kube_app.Database.Informers.{
  KubeApplierInformers, list_fn, new_kube_applier_informers, new_desire_informer,
}
use rosa_hyperfleet_kube_app.Application.{
  KubeApplierRootCmdFlags, validate, flags_specs_prefix, flags_status_prefix, options_db,
}

-- app.Options, with the lock and the dynamic client as values of client-go.
pub record Options (W Lock Dynamic : Type 0) : Type 0 where
  pub management_cluster : String
  pub leader_election_lock : Lock
  pub kube_applier_db_client : KubeApplierDb W
  pub informers : KubeApplierInformers W
  pub dynamic_client : Dynamic
  pub metrics_server_listen_address : String
  pub healthz_server_listen_address : String
  pub exit_on_panic : Bool

-- NewKubeconfig, os.Hostname, NewLeaderElectionLock, NewDynamoDBConfig with NewDynamoDBClient, and
-- NewDynamicClient.
pub record Constructors (W V Config Lock Dynamic : Type 0) : Type 0 where
  pub new_kubeconfig : String → Result Config
  pub hostname : Result String
  pub new_leader_election_lock : String → Config → String → String → Result Lock
  pub new_dynamo_db_client : String → String → Result (Access W V)
  pub new_dynamic_client : Config → ℕ → ℕ → Result Dynamic

abbrev pub flags_watcher_options : KubeApplierRootCmdFlags → Watcher.Options
flags_watcher_options f = record {
  poll_interval = f.watcher_poll_interval;
  relist_interval = f.watcher_relist_interval;
  max_lookback_window = f.watcher_max_lookback;
  shard_count = 0;
}

abbrev pub wired_options :
    {W V Lock Dynamic : Type 0}
    → KubeApplierRootCmdFlags
    → Lock
    → Access W V
    → Dynamic
    → Options W Lock Dynamic
wired_options f lock client dyn = record {
  management_cluster = f.management_cluster;
  leader_election_lock = lock;
  kube_applier_db_client = options_db client client f;
  informers = new_kube_applier_informers client (flags_specs_prefix f) (flags_watcher_options f);
  dynamic_client = dyn;
  metrics_server_listen_address = f.metrics_server_listen_address;
  healthz_server_listen_address = f.healthz_server_listen_address;
  exit_on_panic = f.exit_on_panic;
}

-- The options are wired to the flags' tables and addresses: the informers list what the controllers' spec
-- readers list and watch the same tables, and the status tables have a prefix of their own.
abbrev pub IsWired :
    {W V Lock Dynamic : Type 0}
    → KubeApplierRootCmdFlags
    → Access W V
    → Options W Lock Dynamic
    → Type 0
IsWired f client o =
    (o.informers.apply_desire_informer.list_with_context
      ≡ list_fn o.kube_applier_db_client.apply_desire_specs)
    × (o.informers.read_desire_informer.list_with_context
        ≡ list_fn o.kube_applier_db_client.read_desire_specs)
    × (o.informers.apply_desire_informer.watch_table
        ≡ table_name (flags_specs_prefix f) table_suffix_apply_desires)
    × (o.informers.read_desire_informer.watch_table
        ≡ table_name (flags_specs_prefix f) table_suffix_read_desires)
    × (o.kube_applier_db_client.apply_desire_specs
        ≡ dynamo_spec_reader (apply_backend client)
            (table_name (flags_specs_prefix f) table_suffix_apply_desires))
    × (o.kube_applier_db_client.read_desire_specs
        ≡ dynamo_spec_reader (read_backend client)
            (table_name (flags_specs_prefix f) table_suffix_read_desires))
    × (o.kube_applier_db_client.apply_desire_status
        ≡ dynamo_crud (apply_backend client)
            (table_name (flags_status_prefix f) table_suffix_apply_desires))
    × (o.kube_applier_db_client.read_desire_status
        ≡ dynamo_crud (read_backend client)
            (table_name (flags_status_prefix f) table_suffix_read_desires))
    × (o.healthz_server_listen_address ≡ f.healthz_server_listen_address)
    × (o.metrics_server_listen_address ≡ f.metrics_server_listen_address)

wired_options-IsWired :
    {W V Lock Dynamic : Type 0} (f : KubeApplierRootCmdFlags) (lock : Lock) (client : Access W V)
    (dyn : Dynamic)
    → IsWired f client (wired_options f lock client dyn)
unfolding new_kube_applier_informers options_db new_kube_applier_db new_desire_informer
wired_options-IsWired f lock client dyn =
    (refl, refl, refl, refl, refl, refl, refl, refl, refl, refl)

module _ {W V Config Lock Dynamic : Type 0} (new : Constructors W V Config Lock Dynamic) where
  unfoldable pub to_kube_applier_options : KubeApplierRootCmdFlags → Result (Options W Lock Dynamic)
  unfolding options_db new_kube_applier_informers
  to_kube_applier_options f = do
    kubeconfig ←
        wrapping "failed to create Kubernetes configuration" (new.new_kubeconfig f.kubeconfig)
    hostname ← wrapping "failed to get hostname" new.hostname
    lock ←
        wrapping "failed to create leader election lock"
          (new.new_leader_election_lock hostname kubeconfig f.kube_namespace f.leader_election_id)
    client ←
        wrapping "failed to load AWS config"
          (new.new_dynamo_db_client f.aws_region f.aws_endpoint_url)
    dyn ←
        wrapping "failed to create dynamic client"
          (new.new_dynamic_client kubeconfig f.kube_qps f.kube_burst)
    ok (wired_options f lock client dyn)

  abbrev run_options :
      (Options W Lock Dynamic → Option GoError) → Result (Options W Lock Dynamic) → Option GoError
  run_options run (err e) = some (wrap "failed to convert flags to options" e)
  run_options run (ok options) = elim (run options) [
    | none ↦ none
    | some e ↦ some (wrap "failed to run kube-applier" e)
  ]

  abbrev checked :
      Option GoError
      → Option GoError
      → (Options W Lock Dynamic → Option GoError)
      → Result (Options W Lock Dynamic)
      → Option GoError
  checked (some e) verbosity run options = some (wrap "flags validation failed" e)
  checked none (some e) run options = some (wrap "failed to set klog verbosity" e)
  checked none none run options = run_options run options

  -- `set_verbosity` is the error of flag.Set, and `run` what Options.Run returns.
  unfoldable pub run_root_cmd :
      Option GoError
      → (Options W Lock Dynamic → Option GoError)
      → KubeApplierRootCmdFlags
      → Option GoError
  unfolding validate to_kube_applier_options
  run_root_cmd set_verbosity run f =
      checked (validate f) set_verbosity run (to_kube_applier_options f)

  -- Options that come from flags are wired to one set of tables, with the client of the region and the
  -- endpoint of the flags: the informers of the two kinds list what the controllers' spec readers list,
  -- and watch the tables of the specs prefix that the flags give, which the spec readers read; the
  -- status tables have the status prefix, and the servers the addresses of the flags.
  pub to_kube_applier_options-IsWired :
      (f : KubeApplierRootCmdFlags) (o : Options W Lock Dynamic)
      → to_kube_applier_options f ≡ ok o
      → (client : Access W V) × (new.new_dynamo_db_client f.aws_region f.aws_endpoint_url
          ≡ ok client)
        × IsWired f client o
  unfolding to_kube_applier_options
  to_kube_applier_options-IsWired f o h =
      let (kubeconfig, e1, h1) =
        >>=-eq-ok
          (wrapping "failed to create Kubernetes configuration" (new.new_kubeconfig f.kubeconfig)) _
          h in
      let (hostname, e2, h2) = >>=-eq-ok (wrapping "failed to get hostname" new.hostname) _ h1 in
      let (lock, e3, h3) =
        >>=-eq-ok
          (wrapping "failed to create leader election lock" (
            new.new_leader_election_lock hostname kubeconfig f.kube_namespace f.leader_election_id))
          _ h2 in
      let (client, e4, h4) =
        >>=-eq-ok
          (wrapping "failed to load AWS config"
            (new.new_dynamo_db_client f.aws_region f.aws_endpoint_url))
          _ h3 in
      let (dyn, e5, h5) =
        >>=-eq-ok
          (wrapping "failed to create dynamic client"
            (new.new_dynamic_client kubeconfig f.kube_qps f.kube_burst))
          _ h4 in
      let built : wired_options f lock client dyn ≡ o = cc h5 in
      let connected = wrapping-eq-ok "failed to load AWS config" _ e4 in
      (client, connected, subst (IsWired f client) built (wired_options-IsWired f lock client dyn))
