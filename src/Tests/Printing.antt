-- ===== src/Tests/Printing.antt =====
-- What the tools print, for small resources.
use rosa_hyperfleet_kube_app.Prelude.{
  ℕ, ◌+◌, String, ◌≡◌, refl, Option, none, some, List, [], ◌∷◌, lookup, contains, length,
  if◌then◌else◌, ◌==◌, string_eq, nat_beq, insert,
}
use rosa_hyperfleet_kube_app.Prelude.Int.{ℤ, pos, pos_part}
use rosa_hyperfleet_kube_app.Base.{Result, ok, err, plain, not_found, concat}
use rosa_hyperfleet_kube_app.Desirectl.Getting.Listing.{Listed}
use rosa_hyperfleet_kube_app.Desirectl.Printing.{
  Values, print_resource_table, output_table, output_json,
}
use rosa_hyperfleet_kube_app.Desirectl.Printing.Rows.{extract_table_row}
use rosa_hyperfleet_kube_app.Desirectl.Printing.Columns.{
  extract_table_row-columns, is_filled, extra_columns,
}
use rosa_hyperfleet_kube_app.Desirectl.Printing.Results.{print_list, print_list-tells, table_lines}

mutual
  data Tree : Type 0 where
    text : String → Tree
    number : ℤ → Tree
    object : Fields → Tree

  data Fields : Type 0 where
    end : Fields
    field : String → Tree → Fields → Fields

abbrev find : Fields → String → Option Tree
find end key = none
find (field k v fields) key = if k == key then some v else find fields key

abbrev member_of : Tree → String → Option Tree
member_of (object fields) key = find fields key
member_of (text s) key = none
member_of (number n) key = none

abbrev to_text : Tree → Option String
to_text (text s) = some s
to_text (number n) = none
to_text (object fields) = none

abbrev to_object : Tree → Option Tree
to_object (text s) = none
to_object (number n) = none
to_object (object fields) = some (object fields)

abbrev to_int : Tree → Option ℤ
to_int (text s) = none
to_int (number n) = some n
to_int (object fields) = none

-- A deployment with three replicas of which two are ready.
abbrev deployment : Tree
deployment = object (
    field "metadata" (object (field "name" (text "web") (field "namespace" (text "prod") end))) (
      field "spec" (object (field "replicas" (number (pos 3)) end))
        (field "status" (object (field "readyReplicas" (number (pos 2)) end)) end)))

abbrev parse : String → Result Tree
parse s = if s == "web" then ok deployment else err (plain "no JSON")

abbrev show_small : ℕ → String
show_small n = if nat_beq n 2 then "2" else if nat_beq n 3 then "3" else "0"

abbrev values : Values Tree
values = record {
  unmarshal = parse;
  unmarshal_object = parse;
  marshal_indent = λ t. ok "tree";
  from_string = text;
  from_list = λ l. object end;
  json_to_yaml = λ s. ok s;
  member = member_of;
  as_string = to_text;
  as_object = to_object;
  as_list = λ t. none;
  as_int = to_int;
  size = λ t. pos 0;
  add = λ a b. pos (pos_part a + pos_part b);
  show = λ n. show_small (pos_part n);
}

extract_table_row-columns_example :
    is_filled (lookup "READY" (extract_table_row values "deployments" "web").extra)
    ≡ contains (extra_columns "deployments") "READY"
extract_table_row-columns_example =
    extract_table_row-columns values deployment "READY" "deployments" "web" refl

deployment_table :
    print_resource_table "deployments" (extract_table_row values "deployments" "web" ∷ [])
    ≡ ("NAME" ∷ "NAMESPACE" ∷ "READY" ∷ "UP-TO-DATE" ∷ "AVAILABLE" ∷ [])
      ∷ ("web" ∷ "prod" ∷ "2/3" ∷ "0" ∷ "0" ∷ [])
      ∷ []
unfolding print_resource_table extract_table_row insert concat
deployment_table = refl

-- One resource that was read, and one that failed.
abbrev results : List Listed
results =
    record { name = "web"; namespace = "prod"; content = some "web"; error = none }
    ∷ record { name = "db"; namespace = "prod"; content = none; error = some not_found }
    ∷ []

print_list-tells_example :
    let (printed, warnings) = print_list values "deployments" output_table results in
    table_lines values "deployments" printed + length warnings ≡ 2
print_list-tells_example = print_list-tells values "deployments" results

-- In JSON output the failure is not told.
json_silent : (print_list values "deployments" output_json results).1 ≡ []
unfolding print_list
json_silent = refl
