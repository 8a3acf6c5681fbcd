-- ===== src/Tests/Wiring.antt =====
-- Options built from flags over a DynamoDB in memory.
use rosa_hyperfleet_kube_app.Prelude.{String, ◌≡◌, refl, none, string_eq}
use rosa_hyperfleet_kube_app.Base.{plain, ok, err}
use rosa_hyperfleet_kube_app.Database.Client.{Access}
use rosa_hyperfleet_kube_app.Application.{
  KubeApplierRootCmdFlags, new_kube_applier_root_cmd_flags, validate,
}
use rosa_hyperfleet_kube_app.Application.Options.{
  Options, Constructors, to_kube_applier_options, wired_options, to_kube_applier_options-IsWired,
  IsWired, run_root_cmd,
}
use rosa_hyperfleet_kube_app.Application.Running.{run_start, starting}
use rosa_hyperfleet_kube_app.Tests.Memory.{Tables, memory, text_json}

abbrev access : Access Tables String
access = record {
  client = memory;
  now = λ w. (7, w);
  json = text_json;
  apply_codec = record {
    marshal_map = λ d. err (plain "no codec");
    unmarshal_map = λ m. err (plain "no codec");
  };
  read_codec = record {
    marshal_map = λ d. err (plain "no codec");
    unmarshal_map = λ m. err (plain "no codec");
  };
}

abbrev constructors : Constructors Tables String String String String
constructors = record {
  new_kubeconfig = λ path. ok path;
  hostname = ok "pod";
  new_leader_election_lock = λ hostname config namespace id. ok id;
  new_dynamo_db_client = λ region endpoint. ok access;
  new_dynamic_client = λ config qps burst. ok config;
}

abbrev flags : KubeApplierRootCmdFlags
flags = record new_kube_applier_root_cmd_flags {
  management_cluster = "mc";
  aws_region = "us";
  kube_namespace = "ns";
}

flags_pass : validate flags ≡ none
unfolding validate
flags_pass = refl

abbrev options : Options Tables String String
options = wired_options flags "kube-applier" access ""

built : to_kube_applier_options constructors flags ≡ ok options
unfolding to_kube_applier_options
built = refl

to_kube_applier_options-IsWired_example :
    (client : Access Tables String) × (constructors.new_dynamo_db_client flags.aws_region
        flags.aws_endpoint_url
      ≡ ok client)
    × IsWired flags client options
to_kube_applier_options-IsWired_example =
    to_kube_applier_options-IsWired constructors flags options built

-- By default both servers are started.
default_servers :
    (run_start options.healthz_server_listen_address
      options.metrics_server_listen_address).healthz_server
    ≡ starting
unfolding run_start
default_servers = refl

root_cmd_ends : run_root_cmd constructors none (λ o. none) flags ≡ none
unfolding run_root_cmd
root_cmd_ends = refl
