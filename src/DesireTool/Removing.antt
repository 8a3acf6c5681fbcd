-- ===== src/DesireTool/Removing.antt =====
-- The delete and list commands of cmd/desire-tool/main.go. What they print is left out.
pub mod Removed
use rosa_hyperfleet_kube_app.Prelude.{
  String, Bool, true, false, Option, none, some, List, [], ◌∷◌, ◌++◌, if◌then◌else◌, ◌==◌,
  string_eq,
}
use rosa_hyperfleet_kube_app.Base.{
  GoError, plain, wrapping, concat, error_text, Result, ok, err, ◌>>=◌, Io, is_not_found_error,
}
use rosa_hyperfleet_kube_app.Api.{ApplyDesire, apply_desire_type_delete}
use rosa_hyperfleet_kube_app.Database.Client.{ResourceCrud, SpecReader}
use rosa_hyperfleet_kube_app.DesireTool.{DocIdFlags, resolve}

-- strings.Join with "; "
abbrev join_errors : List String → String
join_errors [] = ""
join_errors (s ∷ []) = s
join_errors (s ∷ t ∷ ss) = concat (s ∷ "; " ∷ join_errors (t ∷ ss) ∷ [])

-- An error other than ErrNotFound is noted.
abbrev pub noted : String → Option GoError → List String
noted table none = []
noted table (some e) =
    if is_not_found_error (some e) then [] else concat (table ∷ ": " ∷ error_text e ∷ []) ∷ []

abbrev pub deleting_error : String → List String → Option GoError
deleting_error what [] = none
deleting_error what (s ∷ ss) =
    some (plain (concat ("deleting " ∷ what ∷ ": " ∷ join_errors (s ∷ ss) ∷ [])))

module _ {W T : Type 0} (specs status : ResourceCrud W T) (what : String) where
  abbrev pub delete_document : String → Io W (Option GoError)
  delete_document doc_id w =
      let (e, w') = specs.delete doc_id w in
      let (e', w'') = status.delete doc_id w' in
      (deleting_error what (noted "specs-table" e ++ noted "status-table" e'), w'')

  -- The three delete commands, which differ in the tables and in `what`.
  unfoldable pub delete_command : (String → String) → DocIdFlags → Io W (Option GoError)
  unfolding resolve
  delete_command new_sha1 f w = elim (resolve new_sha1 f) [
    | err e ↦ (some e, w)
    | ok doc_id ↦ delete_document doc_id w
  ]
