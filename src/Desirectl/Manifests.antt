-- ===== src/Desirectl/Manifests.antt =====
-- cmd/desirectl/helpers.go: the documents of the files that -f names. A file's content is a list of bytes.
pub mod Streams
pub mod Found
use rosa_hyperfleet_kube_app.Prelude.{
  ℕ, suc, zero, String, Bool, true, false, ◌||◌, ◌&&◌, not, List, [], ◌∷◌, ◌++◌, ◌==◌, nat_eq,
  string_eq, if◌then◌else◌, Option, none, some,
}
use rosa_hyperfleet_kube_app.Base.{GoError, Result, ok, err, ◌>>=◌, wrapping, concat}

abbrev pub Bytes : Type 0
Bytes = List ℕ

abbrev pub newline : ℕ
newline = 10

-- []byte("\n---"), less its first byte
abbrev pub dashes : Bytes
dashes = 45 ∷ 45 ∷ 45 ∷ []

-- bytes.HasPrefix(s, prefix), with the prefix first
unfoldable pub starts_with : Bytes → Bytes → Bool
starts_with [] s = true
starts_with (b ∷ prefix) [] = false
starts_with (b ∷ prefix) (c ∷ s) = b == c && starts_with prefix s

-- A byte in front of the first piece.
abbrev pub put_front : ℕ → List Bytes → List Bytes
put_front c [] = (c ∷ []) ∷ []
put_front c (piece ∷ pieces) = (c ∷ piece) ∷ pieces

-- bytes.Split(s, []byte("\n---")); the first argument counts the bytes of a separator that are still to
-- be left out.
unfoldable pub split_bytes : ℕ → Bytes → List Bytes
unfolding starts_with
split_bytes k [] = [] ∷ []
split_bytes (suc k) (c ∷ s) = split_bytes k s
split_bytes zero (c ∷ s) = elim (starts_with (newline ∷ dashes) (c ∷ s)) [
  | true ↦ [] ∷ split_bytes 3 s
  | false ↦ put_front c (split_bytes 0 s)
]

-- len(trimmed) == 0
abbrev pub is_empty : Bytes → Bool
is_empty [] = true
is_empty (c ∷ s) = false

-- The loop of splitYAMLDocuments, with bytes.TrimSpace.
abbrev pub keep_documents : (Bytes → Bytes) → List Bytes → List Bytes
keep_documents trim_space [] = []
keep_documents trim_space (doc ∷ pieces) =
    let docs = keep_documents trim_space pieces in
    (if is_empty (trim_space doc) then docs else trim_space doc ∷ docs)

unfoldable pub split_yaml_documents : (Bytes → Bytes) → Bytes → List Bytes
unfolding split_bytes
split_yaml_documents trim_space data_bytes = keep_documents trim_space (split_bytes 0 data_bytes)

-- A call of the function that filepath.WalkDir is given: path, d.IsDir() and err.
pub record WalkEntry : Type 0 where
  pub path : String
  pub is_dir : Bool
  pub walk_error : Option GoError

-- What the tool uses of os, path/filepath, strings and bytes, while the files stay as they are.
pub record Files : Type 0 where
  -- os.Stat, with IsDir of its result
  pub stat : String → Result Bool
  -- the calls that filepath.WalkDir makes, as long as the function returns nil
  pub walk_dir : String → List WalkEntry
  pub read_file : String → Result Bytes
  -- strings.ToLower of filepath.Ext
  pub lower_ext : String → String
  pub trim_space : Bytes → Bytes

module _ (files : Files) where
  abbrev pub is_manifest : String → Bool
  is_manifest path =
      files.lower_ext path == ".yaml"
      || (files.lower_ext path == ".yml" || files.lower_ext path == ".json")

  -- The documents of one file.
  unfoldable pub read_manifest : String → Result (List Bytes)
  unfolding split_yaml_documents
  read_manifest path =
      wrapping (concat ("reading " ∷ path ∷ [])) (files.read_file path) >>= λ data_bytes.
      ok (split_yaml_documents files.trim_space data_bytes)

  -- The function that WalkDir is given.
  abbrev pub visit : WalkEntry → Result (List Bytes)
  visit entry = elim entry.walk_error [
    | some e ↦ err e
    | none ↦
        if entry.is_dir
        then ok []
        else if is_manifest entry.path
        then read_manifest entry.path
        else ok []
  ]

  abbrev pub visit_entries : List WalkEntry → Result (List Bytes)
  visit_entries [] = ok []
  visit_entries (entry ∷ entries) =
      visit entry >>= λ docs. visit_entries entries >>= λ rest. ok (docs ++ rest)

  abbrev pub read_path : String → Result (List Bytes)
  read_path p = wrapping (concat ("accessing " ∷ p ∷ [])) (files.stat p) >>= λ is_dir.
      (if is_dir then visit_entries (files.walk_dir p) else read_manifest p)

  unfoldable pub read_manifest_files : List String → Result (List Bytes)
  read_manifest_files [] = ok []
  read_manifest_files (p ∷ paths) =
      read_path p >>= λ docs. read_manifest_files paths >>= λ rest. ok (docs ++ rest)
