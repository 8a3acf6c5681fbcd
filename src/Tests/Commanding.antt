-- ===== src/Tests/Commanding.antt =====
-- The apply command on two files and a directory in memory.
use rosa_hyperfleet_kube_app.Prelude.{
  String, ◌≡◌, refl, ap, Bool, true, false, ◌&&◌, none, some, [], ◌∷◌, ◌++◌, if◌then◌else◌, ◌==◌,
  nat_eq, string_eq, lookup,
}
use rosa_hyperfleet_kube_app.Base.{plain, ok, concat, is_already_exists_error}
use rosa_hyperfleet_kube_app.Desirectl.Config.{ConfigFile, load_config, resolve_active_context}
use rosa_hyperfleet_kube_app.Desirectl.ResourceTypes.{
  resource_type_from_manifest, resolve_resource_type,
}
use rosa_hyperfleet_kube_app.Desirectl.Desires.{
  document_of, new_document_id, resource_ref_from_manifest, format_resource_name,
}
use rosa_hyperfleet_kube_app.Desirectl.Applying.{run_apply}
use rosa_hyperfleet_kube_app.Desirectl.Manifests.{
  Bytes, newline, is_empty, starts_with, WalkEntry, Files, read_manifest, read_manifest_files,
}
use rosa_hyperfleet_kube_app.Desirectl.Manifests.Streams.{IsTrimming, IsDocument}
use rosa_hyperfleet_kube_app.Desirectl.Manifests.Found.{
  walked, passed, found, Holds, no_path, file, directory, read_manifest_files-yaml_stream,
}
use rosa_hyperfleet_kube_app.Desirectl.Commands.{Tool, new_apply_cmd, new_delete_cmd}
use rosa_hyperfleet_kube_app.Desirectl.Commands.Reported.{AllApplied, new_apply_cmd-AllApplied}
use rosa_hyperfleet_kube_app.Tests.Tool.{World, lib, clients, active, start}

-- White space is the newline here.
abbrev trim_right : Bytes → Bytes
trim_right [] = []
trim_right (c ∷ s) =
    let rest = trim_right s in (if c == newline && is_empty rest then [] else c ∷ rest)

abbrev trim_left : Bytes → Bytes
trim_left [] = []
trim_left (c ∷ s) = if c == newline then trim_left s else c ∷ s

abbrev trim : Bytes → Bytes
trim s = trim_left (trim_right s)

trim_right-newline : (s : Bytes) → trim_right (s ++ newline ∷ []) ≡ trim_right s
trim_right-newline [] = refl
trim_right-newline (c ∷ s) =
    ap (λ rest. if c == newline && is_empty rest then [] else c ∷ rest) (trim_right-newline s)

trim_left-newline : (s : Bytes) → trim_left (if is_empty s then [] else newline ∷ s) ≡ trim_left s
trim_left-newline [] = refl
trim_left-newline (c ∷ s) = refl

trim_law : IsTrimming trim
trim_law = record {
  trim-empty = refl;
  trim-before = λ s. trim_left-newline (trim_right s);
  trim-after = λ s. ap trim_left (trim_right-newline s);
}

-- The content of a file with the documents "a" and "b", and of any other file.
abbrev content : String → Bytes
content path = if path == "a.yaml" then 97 ∷ 10 ∷ 45 ∷ 45 ∷ 45 ∷ 10 ∷ 98 ∷ 10 ∷ [] else 99 ∷ 10 ∷ []

abbrev entry : String → Bool → WalkEntry
entry path is_dir = record { path = path; is_dir = is_dir; walk_error = none }

abbrev ext_of : String → String
ext_of path = if path == "dir/readme" then "" else ".yaml"

abbrev files : Files
files = record {
  stat = λ p. ok (p == "dir");
  walk_dir = λ p. entry "dir" true ∷ entry "dir/readme" false ∷ entry "dir/c.yaml" false ∷ [];
  read_file = λ p. ok (content p);
  lower_ext = ext_of;
  trim_space = trim;
}

letter_a : IsDocument trim (97 ∷ [])
unfolding starts_with
letter_a = record { unmarked = refl; trimmed = refl; present = refl }

letter_b : IsDocument trim (98 ∷ [])
unfolding starts_with
letter_b = record { unmarked = refl; trimmed = refl; present = refl }

letter_c : IsDocument trim (99 ∷ [])
unfolding starts_with
letter_c = record { unmarked = refl; trimmed = refl; present = refl }

holds : Holds files ("a.yaml" ∷ "dir" ∷ []) ((97 ∷ []) ∷ (98 ∷ []) ∷ (99 ∷ []) ∷ [])
holds =
    file ((97 ∷ []) ∷ (98 ∷ []) ∷ []) refl (refl, (letter_a, (letter_b, tt)))
      (directory ((99 ∷ []) ∷ []) refl
        (passed refl refl
          (passed refl refl (found ((99 ∷ []) ∷ []) refl refl (refl, (letter_c, tt)) walked)))
        no_path)

read_manifest_files-yaml_stream_example :
    read_manifest_files files ("a.yaml" ∷ "dir" ∷ []) ≡ ok ((97 ∷ []) ∷ (98 ∷ []) ∷ (99 ∷ []) ∷ [])
read_manifest_files-yaml_stream_example =
    read_manifest_files-yaml_stream files trim_law ("a.yaml" ∷ "dir" ∷ [])
      ((97 ∷ []) ∷ (98 ∷ []) ∷ (99 ∷ []) ∷ []) holds

-- One context, which is the current one.
abbrev kept_config : ConfigFile World
kept_config = record {
  read_file = λ w. (ok (some "config"), w);
  unmarshal = λ s. ok (record {
    api_version = "desirectl/v1";
    kind = "Config";
    current_context = "dev";
    contexts = record { name = "dev"; context = active } ∷ [];
  });
  marshal = λ c. ok "config";
  mkdir_all = λ w. (none, w);
  write_file = λ s w. (none, w);
}

abbrev tool : Tool World String
tool = record {
  config = kept_config;
  new_clients = λ c w. (ok clients, w);
  files = files;
  text = λ s. "{}";
  lib = lib;
  flag_context = "";
  flag_namespace = "";
}

apply_succeeds : (new_apply_cmd tool ("dir" ∷ []) start).0 ≡ none
unfolding new_apply_cmd load_config resolve_active_context read_manifest_files read_manifest
    run_apply resource_ref_from_manifest resource_type_from_manifest document_of new_document_id
    lookup is_already_exists_error resolve_resource_type format_resource_name concat
apply_succeeds = refl

new_apply_cmd-AllApplied_example : AllApplied tool ("dir" ∷ []) start
new_apply_cmd-AllApplied_example = new_apply_cmd-AllApplied tool ("dir" ∷ []) start apply_succeeds

-- Without -f nothing is read.
no_file_named : (new_apply_cmd tool [] start).1 ≡ start
unfolding new_apply_cmd
no_file_named = refl

-- A type without a name is refused once the clients are made, and nothing is written.
type_only :
    new_delete_cmd tool [] ("configmaps" ∷ []) start
    ≡ (some (plain "must specify TYPE NAME or -f FILENAME"), start)
unfolding new_delete_cmd load_config resolve_active_context
type_only = refl
