-- ===== src/Desirectl/Manifests/Found.antt =====
-- The documents that readManifestFiles finds in files and directories.
use rosa_hyperfleet_kube_app.Prelude.{
  ◌≡◌, refl, ◌∙◌, Bool, true, false, ◌||◌, not, String, none, if◌then◌else◌, List, [], ◌∷◌, ◌++◌,
}
use rosa_hyperfleet_kube_app.Base.{ok}
use rosa_hyperfleet_kube_app.Desirectl.Manifests.{
  Bytes, WalkEntry, Files, is_manifest, read_manifest, visit, visit_entries, read_manifest_files,
}
use rosa_hyperfleet_kube_app.Desirectl.Manifests.Streams.{
  IsTrimming, AreDocuments, yaml_stream, split_yaml_documents-yaml_stream,
}

module _ (files : Files) where
  -- A file that holds the documents.
  abbrev pub IsStream : String → List Bytes → Type 0
  IsStream path docs =
      (files.read_file path ≡ ok (yaml_stream docs)) × AreDocuments files.trim_space docs

  -- What WalkDir comes by: directories and files that are no manifests, and files with their documents.
  pub data Walked : List WalkEntry → List Bytes → Type 0 where
    walked : Walked [] []
    passed :
        {entry : WalkEntry} {entries : List WalkEntry} {docs : List Bytes}
        → entry.walk_error ≡ none
        → (entry.is_dir || not (is_manifest files entry.path)) ≡ true
        → Walked entries docs
        → Walked (entry ∷ entries) docs
    found :
        {entry : WalkEntry} {entries : List WalkEntry} {docs : List Bytes} (here : List Bytes)
        → entry.walk_error ≡ none
        → (entry.is_dir || not (is_manifest files entry.path)) ≡ false
        → IsStream entry.path here
        → Walked entries docs
        → Walked (entry ∷ entries) (here ++ docs)

  -- The paths of -f, with all the documents in their order.
  pub data Holds : List String → List Bytes → Type 0 where
    no_path : Holds [] []
    file :
        {path : String} {paths : List String} {docs : List Bytes} (here : List Bytes)
        → files.stat path ≡ ok false
        → IsStream path here
        → Holds paths docs
        → Holds (path ∷ paths) (here ++ docs)
    directory :
        {path : String} {paths : List String} {docs : List Bytes} (here : List Bytes)
        → files.stat path ≡ ok true
        → Walked (files.walk_dir path) here
        → Holds paths docs
        → Holds (path ∷ paths) (here ++ docs)

module _ {A : Type 0} where
  not_taken :
      (is_dir mine : Bool) (skipped read : A)
      → (is_dir || not mine) ≡ true
      → (if is_dir then skipped else if mine then read else skipped) ≡ skipped
  not_taken true mine skipped read h = refl
  not_taken false true skipped read h = absurd (cc h)
  not_taken false false skipped read h = refl

  taken :
      (is_dir mine : Bool) (skipped read : A)
      → (is_dir || not mine) ≡ false
      → (if is_dir then skipped else if mine then read else skipped) ≡ read
  taken true mine skipped read h = absurd (cc h)
  taken false true skipped read h = refl
  taken false false skipped read h = absurd (cc h)

module _ (files : Files) (law : IsTrimming files.trim_space) where
  read_manifest_found :
      (path : String) (docs : List Bytes)
      → IsStream files path docs
      → read_manifest files path ≡ ok docs
  unfolding read_manifest
  read_manifest_found path docs (content, all) =
      rw (content, split_yaml_documents-yaml_stream law docs all)

  visit_passed :
      (entry : WalkEntry)
      → entry.walk_error ≡ none
      → (entry.is_dir || not (is_manifest files entry.path)) ≡ true
      → visit files entry ≡ ok []
  visit_passed entry fine other =
      rw fine (not_taken entry.is_dir (is_manifest files entry.path) (ok []) _ other)

  visit_found :
      (entry : WalkEntry) (docs : List Bytes)
      → entry.walk_error ≡ none
      → (entry.is_dir || not (is_manifest files entry.path)) ≡ false
      → IsStream files entry.path docs
      → visit files entry ≡ ok docs
  visit_found entry docs fine mine holds = rw fine (
      taken entry.is_dir (is_manifest files entry.path) (ok []) _ mine
      ∙ read_manifest_found entry.path docs holds)

  visit_entries_found :
      (entries : List WalkEntry) (docs : List Bytes)
      → Walked files entries docs
      → visit_entries files entries ≡ ok docs
  visit_entries_found _ _ walked = refl
  visit_entries_found (entry ∷ entries) docs (passed fine other rest) =
      rw (visit_passed entry fine other, visit_entries_found entries docs rest)
  visit_entries_found (entry ∷ entries) _ (found here fine mine holds rest) =
      rw (visit_found entry _ fine mine holds, visit_entries_found entries _ rest)

  -- If every path of -f is a file of documents with lines of three dashes between them, or a directory
  -- whose walk meets no error and whose files that are named .yaml, .yml or .json are such files, then
  -- exactly these documents are found, in the order of the paths and of the walks. A document has no
  -- line that begins with three dashes, no white space around it, and is not empty; trimming must leave
  -- out newlines before and after a text.
  pub read_manifest_files-yaml_stream :
      (paths : List String) (docs : List Bytes)
      → Holds files paths docs
      → read_manifest_files files paths ≡ ok docs
  unfolding read_manifest_files
  read_manifest_files-yaml_stream _ _ no_path = refl
  read_manifest_files-yaml_stream (path ∷ paths) _ (file here stat holds rest) =
      rw (stat, read_manifest_found path _ holds, read_manifest_files-yaml_stream paths _ rest)
  read_manifest_files-yaml_stream (path ∷ paths) _ (directory here stat holds rest) =
      rw (stat, visit_entries_found _ _ holds, read_manifest_files-yaml_stream paths _ rest)
