-- ===== src/Tests/Store.antt =====
-- The status store on a database in memory.
use rosa_hyperfleet_kube_app.Prelude.{
  ℕ, String, ◌≡◌, refl, ◌&&◌, Option, none, some, [], ◌∷◌, if◌then◌else◌, ◌==◌, string_eq, lookup,
  insert,
}
use rosa_hyperfleet_kube_app.Base.{ok, err, precondition_failed}
use rosa_hyperfleet_kube_app.Dynamo.Client.{Item, member_s, member_n}
use rosa_hyperfleet_kube_app.Dynamo.Shard.{compute_shard_default}
use rosa_hyperfleet_kube_app.Database.{desire_to_item}
use rosa_hyperfleet_kube_app.Database.Crud.{create, replace, get, delete, next_version}
use rosa_hyperfleet_kube_app.Database.Crud.Store.{
  created, replaced, create_if_absent, replace_compare_and_swap, get-replace, get-create,
  replace-replace,
}
use rosa_hyperfleet_kube_app.Database.FakeCrud.{FakeCrud}
use rosa_hyperfleet_kube_app.Database.Items.Assembly.{restored}
use rosa_hyperfleet_kube_app.Database.Client.{dynamo_crud}
use rosa_hyperfleet_kube_app.Database.Client.Contract.{IsResourceCrud, dynamo_crud-IsResourceCrud}
use rosa_hyperfleet_kube_app.Tests.Memory.{
  Tables, Note, note_desire, backend, backend_law, memory-IsAvailable, written, text_json,
  note_codec,
}

abbrev note_at : ℕ → Note
note_at v = record {
  metadata = record { document_id = "a"; version = v; update_time = 3; create_time = 2 };
  content = some (record { raw = "{}" });
  label = "l";
}

abbrev item_for : ℕ → ℕ → ℕ → Item
item_for v ut ct =
    ("version", member_n v)
    ∷ ("updateTime", member_n ut)
    ∷ ("createTime", member_n ct)
    ∷ ("label", member_s "l")
    ∷ ("documentID", member_s "a")
    ∷ ("shard", member_s "0")
    ∷ ("spec_kubeContent", member_s "{}")
    ∷ []

encoded :
    (v : ℕ) → desire_to_item text_json note_codec (created 7 (note_at v)) ≡ ok (item_for 1 7 7)
unfolding desire_to_item insert compute_shard_default
encoded v = refl

replaced_encoded :
    (v : ℕ)
    → desire_to_item text_json note_codec (replaced 7 (note_at v))
      ≡ ok (item_for (next_version v) 7 2)
unfolding desire_to_item insert compute_shard_default
replaced_encoded v = refl

abbrev nothing_stored : Tables
nothing_stored t id = none

-- Version 4 of the note is stored.
abbrev stored : Tables
stored = written "t" "a" (some (item_for 4 3 2)) nothing_stored

abbrev at_key : Tables → String → String → Option Item
at_key = backend_law.dynamo.item_at

create_if_absent_example :
    ((create backend "t" (note_at 5) nothing_stored).0 ≡ ok (created 7 (note_at 5)))
    × ((t' id' : String)
        → at_key (create backend "t" (note_at 5) nothing_stored).1 t' id'
          ≡ (if ("t" == t') && ("a" == id') then some (item_for 1 7 7) else none))
create_if_absent_example =
    create_if_absent backend backend_law memory-IsAvailable "t" (note_at 5) nothing_stored
      (item_for 1 7 7) refl (encoded 5)

replace_compare_and_swap_example :
    ((replace backend "t" (note_at 4) stored).0 ≡ ok (replaced 7 (note_at 4)))
    × ((t' id' : String)
        → at_key (replace backend "t" (note_at 4) stored).1 t' id'
          ≡ (if ("t" == t') && ("a" == id') then some (item_for 5 7 2) else at_key stored t' id'))
unfolding lookup
replace_compare_and_swap_example =
    replace_compare_and_swap backend backend_law memory-IsAvailable "t" (note_at 4) stored
      (item_for 5 7 2) (replaced_encoded 4)

replace_runs : (replace backend "t" (note_at 4) stored).0 ≡ ok (replaced 7 (note_at 4))
unfolding lookup
replace_runs =
    (replace_compare_and_swap backend backend_law memory-IsAvailable "t" (note_at 4) stored
      (item_for 5 7 2) (replaced_encoded 4)).0

create_runs : (create backend "t" (note_at 5) nothing_stored).0 ≡ ok (created 7 (note_at 5))
create_runs =
    (create_if_absent backend backend_law memory-IsAvailable "t" (note_at 5) nothing_stored
      (item_for 1 7 7) refl (encoded 5)).0

get-replace_example :
    (r : Note) × ((get backend "t" "a" (replace backend "t" (note_at 4) stored).1).0 ≡ ok r)
    × (r.metadata ≡ (replaced 7 (note_at 4)).metadata)
    × (r.metadata.version ≡ 5)
get-replace_example =
    get-replace backend backend_law memory-IsAvailable "t" (note_at 4) (replaced 7 (note_at 4))
      stored (item_for 5 7 2) (replaced_encoded 4) replace_runs

get-create_example :
    (r : Note) × ((get backend "t" "a" (create backend "t" (note_at 5) nothing_stored).1).0 ≡ ok r)
    × (r.metadata ≡ record { document_id = "a"; version = 1; update_time = 7; create_time = 7 })
get-create_example =
    get-create backend backend_law memory-IsAvailable "t" (note_at 5) (created 7 (note_at 5))
      nothing_stored (item_for 1 7 7) refl (encoded 5) create_runs

delete_runs : (delete backend "t" "a" stored).0 ≡ none
unfolding delete
delete_runs = refl

replace-replace_example :
    ((replace backend "t" (note_at 4) (replace backend "t" (note_at 4) stored).1).0
      ≡ err precondition_failed)
    × ((t' id' : String)
        → at_key
            (replace backend "t" (note_at 4) (replace backend "t" (note_at 4) stored).1).1
            t'
            id'
          ≡ at_key (replace backend "t" (note_at 4) stored).1 t' id')
replace-replace_example =
    replace-replace backend backend_law memory-IsAvailable "t" (note_at 4) (note_at 4)
      (replaced 7 (note_at 4)) stored (item_for 5 7 2) (item_for 5 7 2) refl refl refl
      (replaced_encoded 4) (replaced_encoded 4) replace_runs

-- The CRUD in memory, with version 4 of the note.
abbrev fake : FakeCrud Note
fake = record { store = ("a", note_at 4) ∷ []; seq = 8 }

fake_found : lookup "a" fake.store ≡ some (note_at 4)
unfolding lookup
fake_found = refl

-- A label is neither metadata nor content.
abbrev label : Note → String
label d = d.label

label-restored : (d : Note) (o1 o2 : Option String) → label (restored d o1 o2) ≡ label d
label-restored d none none = refl
label-restored d none (some b) = refl
label-restored d (some a) none = refl
label-restored d (some a) (some b) = refl

dynamo_crud-IsResourceCrud_example : IsResourceCrud (dynamo_crud backend "t") label
dynamo_crud-IsResourceCrud_example =
    dynamo_crud-IsResourceCrud backend backend_law memory-IsAvailable "t" label
      (λ d o1 o2 spec status. label-restored d o1 o2) (λ d m. refl)
