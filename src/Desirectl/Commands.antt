-- ===== src/Desirectl/Commands.antt =====
-- cmd/desirectl/apply.go and delete.go: what the commands do before they look at a document. Their flags
-- are arguments.
pub mod Reported
pub mod Getting
use rosa_hyperfleet_kube_app.Prelude.{String, Option, none, some, List, [], ◌∷◌, map}
use rosa_hyperfleet_kube_app.Base.{GoError, plain, Result, ok, err, Io}
use rosa_hyperfleet_kube_app.Desirectl.Config.{
  Config, ConfigFile, Context, load_config, resolve_active_context, effective_namespace,
}
use rosa_hyperfleet_kube_app.Desirectl.ResourceTypes.{ResourceInfo, resolve_resource_type}
use rosa_hyperfleet_kube_app.Desirectl.Desires.{ClientPair, Libraries}
use rosa_hyperfleet_kube_app.Desirectl.Manifests.{Bytes, Files, read_manifest_files}
use rosa_hyperfleet_kube_app.Desirectl.Applying.{run_apply}
use rosa_hyperfleet_kube_app.Desirectl.Deleting.{run_delete, run_delete_from_file}

-- What a run of the tool has at hand: the configuration file, newClientPair, which calls the AWS
-- library, and the files. `text` gives bytes as the text that the model of the documents works on.
pub record Tool (W J : Type 0) : Type 0 where
  pub config : ConfigFile W
  pub new_clients : Context → Io W (Result (ClientPair W))
  pub files : Files
  pub text : Bytes → String
  pub lib : Libraries J
  pub flag_context : String
  pub flag_namespace : String

module _ {W J : Type 0} (tool : Tool W J) where
  module _ {A : Type 0} (fail : GoError → A) where
    -- newClientPair, with the rest of a command; `fail` is how it returns an error.
    abbrev pub with_context : (Context → ClientPair W → Io W A) → Context → Io W A
    with_context command active w =
        let (r, w') = tool.new_clients active w in
        elim r [ err e ↦ (fail e, w') | ok clients ↦ command active clients w' ]

    -- LoadConfig and ResolveActiveContext, with the rest of a command.
    unfoldable pub with_active : (Context → Io W A) → Io W A
    with_active command w =
        let (r, w') = load_config tool.config w in
        elim r [
          | err e ↦ (fail e, w')
          | ok cfg ↦ elim (resolve_active_context cfg tool.flag_context) [
            | err e ↦ (fail e, w')
            | ok active ↦ command active w'
          ]
        ]

  -- readManifestFiles, with what is done with its documents.
  abbrev pub with_documents :
      List String → (List String → Io W (Option GoError)) → Io W (Option GoError)
  with_documents paths command w = elim (read_manifest_files tool.files paths) [
    | err e ↦ (some e, w)
    | ok docs ↦ command (map tool.text docs) w
  ]

  unfoldable pub new_apply_cmd : List String → Io W (Option GoError)
  unfolding with_active
  new_apply_cmd [] w = (some (plain "must specify -f (file or directory)"), w)
  new_apply_cmd (path ∷ paths) w =
      with_active some
        (with_context some
          (λ active clients. with_documents (path ∷ paths) (run_apply tool.lib clients active)))
        w

  abbrev delete_named :
      Context → ClientPair W → String → Result ResourceInfo → Io W (Option GoError)
  delete_named active clients name (err e) w = (some e, w)
  delete_named active clients name (ok info) w =
      run_delete tool.lib clients active info name (effective_namespace active tool.flag_namespace)
        w

  -- args
  abbrev delete_arguments : Context → ClientPair W → List String → Io W (Option GoError)
  delete_arguments active clients [] w = (some (plain "must specify TYPE NAME or -f FILENAME"), w)
  delete_arguments active clients (kind ∷ []) w =
      (some (plain "must specify TYPE NAME or -f FILENAME"), w)
  delete_arguments active clients (kind ∷ name ∷ more) w =
      delete_named active clients name (resolve_resource_type tool.lib.strings kind) w

  abbrev delete_by : List String → List String → Context → ClientPair W → Io W (Option GoError)
  delete_by (path ∷ paths) args active clients =
      with_documents (path ∷ paths)
        (run_delete_from_file tool.lib clients active tool.flag_namespace)
  delete_by [] args active clients = delete_arguments active clients args

  unfoldable pub new_delete_cmd : List String → List String → Io W (Option GoError)
  unfolding with_active
  new_delete_cmd paths args w = with_active some (with_context some (delete_by paths args)) w
