-- ===== src/Desirectl/Config.antt =====
-- cmd/desirectl/config.go and config_cmd.go: the contexts, and the commands that change them. What such a
-- command prints is left out; a command's flags are nil where they were not given.
pub mod Contexts
pub mod Shown
pub mod Commands
use rosa_hyperfleet_kube_app.Prelude.{
  String, Bool, true, false, Option, none, some, List, [], ◌∷◌, if◌then◌else◌, ◌==◌, string_eq,
}
use rosa_hyperfleet_kube_app.Base.{GoError, plain, wrap, concat, Result, ok, err, Io}

pub record Context : Type 0 where
  pub aws_region : String
  pub endpoint_url : String
  pub management_cluster : String
  pub cluster_id : String
  pub node_pool : String
  pub namespace : String
  pub specs_table_prefix : String
  pub status_table_prefix : String

pub record NamedContext : Type 0 where
  pub name : String
  pub context : Context

pub record Config : Type 0 where
  pub api_version : String
  pub kind : String
  pub current_context : String
  pub contexts : List NamedContext

unfoldable pub effective_specs_prefix : Context → String
effective_specs_prefix c =
    if c.specs_table_prefix == ""
    then concat ("mc-" ∷ c.management_cluster ∷ "-specs" ∷ [])
    else c.specs_table_prefix

unfoldable pub effective_status_prefix : Context → String
effective_status_prefix c =
    if c.status_table_prefix == ""
    then concat ("mc-" ∷ c.management_cluster ∷ "-status" ∷ [])
    else c.status_table_prefix

unfoldable pub effective_namespace : Context → String → String
effective_namespace c override =
    if override == "" then if c.namespace == "" then "default" else c.namespace else override

-- The loop of GetContext.
abbrev pub find_context : String → List NamedContext → Option Context
find_context name [] = none
find_context name (nc ∷ contexts) =
    if nc.name == name then some nc.context else find_context name contexts

unfoldable pub get_context : Config → String → Option Context
get_context c name = find_context name c.contexts

-- The first context of the name is changed; if there is none, one is appended.
abbrev pub put_context : String → Context → List NamedContext → List NamedContext
put_context name ctx [] = record { name = name; context = ctx } ∷ []
put_context name ctx (nc ∷ contexts) =
    if nc.name == name
    then record nc { context = ctx } ∷ contexts
    else nc ∷ put_context name ctx contexts

unfoldable pub set_context : Config → String → Context → Config
set_context c name ctx = record c { contexts = put_context name ctx c.contexts }

-- The first context of the name is removed.
abbrev pub drop_context : String → List NamedContext → List NamedContext
drop_context name [] = []
drop_context name (nc ∷ contexts) =
    if nc.name == name then contexts else nc ∷ drop_context name contexts

abbrev dropped : Option Context → Config → String → Bool × Config
dropped none c name = (false, c)
dropped (some ctx) c name = (
  true,
  record c {
    contexts = drop_context name c.contexts;
    current_context = if c.current_context == name then "" else c.current_context;
  },
)

unfoldable pub delete_context : Config → String → Bool × Config
delete_context c name = dropped (find_context name c.contexts) c name

abbrev not_found_context : String → GoError
not_found_context name = plain (concat ("context \"" ∷ name ∷ "\" not found" ∷ []))

abbrev found_or_error : String → Option Context → Result Context
found_or_error name none = err (not_found_context name)
found_or_error name (some ctx) = ok ctx

unfoldable pub resolve_active_context : Config → String → Result Context
unfolding get_context
resolve_active_context c override =
    let name = if override == "" then c.current_context else override in
    if name == ""
    then err (
        plain
          "no context configured; run: desirectl config set-context <name> --aws-region=... --management-cluster=... --cluster-id=...")
    else found_or_error name (get_context c name)

-- The flags of set-context.
pub record ContextFlags : Type 0 where
  pub aws_region : Option String
  pub endpoint_url : Option String
  pub management_cluster : Option String
  pub cluster_id : Option String
  pub node_pool : Option String
  pub namespace : Option String
  pub specs_table : Option String
  pub status_table : Option String

abbrev changed : Option String → String → String
changed none old = old
changed (some new) old = new

abbrev no_context : Context
no_context = record {
  aws_region = "";
  endpoint_url = "";
  management_cluster = "";
  cluster_id = "";
  node_pool = "";
  namespace = "";
  specs_table_prefix = "";
  status_table_prefix = "";
}

abbrev or_no_context : Option Context → Context
or_no_context none = no_context
or_no_context (some ctx) = ctx

abbrev pub with_flags : ContextFlags → Context → Context
with_flags f ctx = record {
  aws_region = changed f.aws_region ctx.aws_region;
  endpoint_url = changed f.endpoint_url ctx.endpoint_url;
  management_cluster = changed f.management_cluster ctx.management_cluster;
  cluster_id = changed f.cluster_id ctx.cluster_id;
  node_pool = changed f.node_pool ctx.node_pool;
  namespace = changed f.namespace ctx.namespace;
  specs_table_prefix = changed f.specs_table ctx.specs_table_prefix;
  status_table_prefix = changed f.status_table ctx.status_table_prefix;
}

-- The change that each command makes to the configuration that it has loaded.
pub data Command : Type 0 where
  set_context_command : String → ContextFlags → Command
  use_context_command delete_context_command : String → Command

abbrev select_if_none : String → Config → Config
select_if_none name c = record c {
  current_context = if c.current_context == "" then name else c.current_context;
}

abbrev use_found : Config → String → Option Context → Result Config
use_found c name none = err (not_found_context name)
use_found c name (some ctx) = ok (record c { current_context = name })

abbrev deleted_or_error : String → Bool × Config → Result Config
deleted_or_error name (true, c) = ok c
deleted_or_error name (false, c) = err (not_found_context name)

unfoldable pub apply_command : Command → Config → Result Config
unfolding get_context set_context delete_context
apply_command (set_context_command name flags) c = ok (
    select_if_none name
      (set_context c name (with_flags flags (or_no_context (get_context c name)))))
apply_command (use_context_command name) c = use_found c name (get_context c name)
apply_command (delete_context_command name) c = deleted_or_error name (delete_context c name)

-- The configuration file: os.ReadFile with the yaml package's Unmarshal (`none` where os.IsNotExist),
-- yaml.Marshal, os.MkdirAll of the directory, and os.WriteFile.
pub record ConfigFile (W : Type 0) : Type 0 where
  pub read_file : Io W (Result (Option String))
  pub unmarshal : String → Result Config
  pub marshal : Config → Result String
  pub mkdir_all : Io W (Option GoError)
  pub write_file : String → Io W (Option GoError)

abbrev or_default : String → String → String
or_default s d = if s == "" then d else s

module _ {W : Type 0} (f : ConfigFile W) where
  abbrev parsed : Result Config → Result Config
  parsed (err e) = err (wrap "parsing config" e)
  parsed (ok cfg) = ok cfg

  unfoldable pub load_config : Io W (Result Config)
  load_config w =
      let (r, w') = f.read_file w in
      elim r [
        | err e ↦ (err (wrap "reading config" e), w')
        | ok none ↦ (
          ok (record {
            api_version = "desirectl/v1";
            kind = "Config";
            current_context = "";
            contexts = [];
          }),
          w',
        )
        | ok (some data_text) ↦ (parsed (f.unmarshal data_text), w')
      ]

  abbrev write_data : String → Io W (Option GoError)
  write_data data_text w =
      let (e, w') = f.mkdir_all w in
      elim e [
        | some e ↦ (some (wrap "creating config directory" e), w')
        | none ↦ f.write_file data_text w'
      ]

  unfoldable pub save_config : Config → Io W (Option GoError)
  save_config cfg w =
      elim (f.marshal (record cfg {
        api_version = or_default cfg.api_version "desirectl/v1";
        kind = or_default cfg.kind "Config";
      })) [ err e ↦ (some (wrap "marshaling config" e), w) | ok data_text ↦ write_data data_text w ]

  abbrev save_result : Result Config → Io W (Option GoError)
  save_result (err e) w = (some e, w)
  save_result (ok cfg) w = save_config cfg w

  unfoldable pub run_command : Command → Io W (Option GoError)
  unfolding load_config save_config
  run_command command w =
      let (r, w') = load_config w in
      elim r [ err e ↦ (some e, w') | ok cfg ↦ save_result (apply_command command cfg) w' ]
