-- ===== src/Database/FakeCrud.antt =====
-- internal/database/listertesting/fake_crud.go: the CRUD in memory that the controllers' tests use.
-- `clone` is the identity on values.
pub mod Agreement
use rosa_hyperfleet_kube_app.Prelude.{
  ℕ, ◌+◌, ◌%◌, ◌^◌, String, Bool, Option, none, some, [], ◌∷◌, Assoc, lookup, insert, remove,
  if◌then◌else◌, ◌==◌, not, string_eq, nat_eq,
}
use rosa_hyperfleet_kube_app.Base.{
  GoError, not_found, precondition_failed, already_exists, plain, Result, ok, err,
}
use rosa_hyperfleet_kube_app.Api.{Desire, get_document_id, get_version, DynamoDbMetadata}

pub record FakeCrud (T : Type 0) : Type 0 where
  pub store : Assoc String T
  pub seq : ℕ

module _ {T : Type 0} ⦃t : Desire T⦄ where
  abbrev pub new_fake_crud : FakeCrud T
  new_fake_crud = record { store = []; seq = 0 }

  abbrev found_or_error : Option T → Result T
  found_or_error none = err not_found
  found_or_error (some stored) = ok stored

  unfoldable pub fake_get : String → FakeCrud T → Result T
  fake_get document_id f = found_or_error (lookup document_id f.store)

  -- Version 1, with both times the next number of the sequence.
  abbrev pub fake_created : ℕ → T → T
  fake_created now obj =
      t.set_metadata obj
        (record (t.metadata obj) { version = 1; update_time = now; create_time = now })

  abbrev create_absent : T → Option T → FakeCrud T → Result T × FakeCrud T
  create_absent obj (some stored) f = (err already_exists, f)
  create_absent obj none f =
      let now = f.seq + 1 in
      (
        ok (fake_created now obj),
        record { store = insert (get_document_id obj) (fake_created now obj) f.store; seq = now },
      )

  unfoldable pub fake_create : T → FakeCrud T → Result T × FakeCrud T
  fake_create obj f =
      if get_document_id obj == ""
      then (err (plain "FakeCRUD.Create: DocumentID is empty"), f)
      else create_absent obj (lookup (get_document_id obj) f.store) f

  -- The stored version plus 1 on an int64, updated now, with the stored creation time.
  abbrev pub fake_replaced : ℕ → T → T → T
  fake_replaced now stored obj = t.set_metadata obj (record (t.metadata obj) {
    version = (get_version stored + 1) % 2 ^ 64;
    update_time = now;
    create_time = (t.metadata stored).create_time;
  })

  abbrev replace_stored : T → Option T → FakeCrud T → Result T × FakeCrud T
  replace_stored obj none f = (err not_found, f)
  replace_stored obj (some stored) f =
      let now = f.seq + 1 in
      if not (get_version obj == get_version stored) then (err precondition_failed, f) else (
        ok (fake_replaced now stored obj),
        record {
          store = insert (get_document_id obj) (fake_replaced now stored obj) f.store;
          seq = now;
        },
      )

  unfoldable pub fake_replace : T → FakeCrud T → Result T × FakeCrud T
  fake_replace obj f = replace_stored obj (lookup (get_document_id obj) f.store) f

  abbrev delete_stored : String → Option T → FakeCrud T → Option GoError × FakeCrud T
  delete_stored document_id none f = (some not_found, f)
  delete_stored document_id (some stored) f =
      (none, record f { store = remove document_id f.store })

  unfoldable pub fake_delete : String → FakeCrud T → Option GoError × FakeCrud T
  fake_delete document_id f = delete_stored document_id (lookup document_id f.store) f
