-- ===== src/Desirectl/Printing/Results.antt =====
-- How cmd/desirectl/get.go prints what it has read: the ends of runGetNamed and runGetList.
use rosa_hyperfleet_kube_app.Prelude.{
  ℕ, suc, ◌+◌, String, ◌≡◌, refl, ap, Option, none, some, List, [], ◌∷◌, map, length, arith,
}
use rosa_hyperfleet_kube_app.Base.{GoError, concat, error_text, Result, ok, err}
use rosa_hyperfleet_kube_app.Desirectl.Getting.Listing.{Listed}
use rosa_hyperfleet_kube_app.Desirectl.Printing.{
  OutputFormat, output_table, output_json, output_yaml, output_wide, Values, TableRow,
  print_resource_json, print_resource_yaml, print_resource_list_json, print_resource_list_yaml,
  print_resource_table, cell, columns_of,
}
use rosa_hyperfleet_kube_app.Desirectl.Printing.Rows.{extract_table_row}

-- What goes to the standard output: lines, or the cells of a table.
pub data Printed : Type 0 where
  printed_lines : List String → Printed
  printed_table : List (List String) → Printed

abbrev pub no_resources_found : Printed
no_resources_found = printed_lines ("No resources found." ∷ [])

-- The items of JSON and YAML output.
unfoldable pub list_items : List Listed → List String
list_items [] = []
list_items (r ∷ results) = elim r.content [
  | none ↦ list_items results
  | some content ↦ content ∷ list_items results
]

abbrev pub warning : Listed → GoError → String
warning r e = concat ("warning: " ∷ r.namespace ∷ "/" ∷ r.name ∷ ": " ∷ error_text e ∷ [])

-- The warnings on the standard error output.
unfoldable pub list_warnings : List Listed → List String
list_warnings [] = []
list_warnings (r ∷ results) = elim r.error [
  | none ↦ list_warnings results
  | some e ↦ warning r e ∷ list_warnings results
]

length-map {ℓ κ} :
    {A : Type ℓ} {B : Type κ} (f : A → B) (xs : List A) → length (map f xs) ≡ length xs
length-map f [] = refl
length-map f (x ∷ xs) = ap suc (length-map f xs)

module _ {J : Type 0} (values : Values J) (resource : String) where
  abbrev row_of_content : Listed → Option String → TableRow
  row_of_content r none = record { name = r.name; namespace = r.namespace; extra = [] }
  row_of_content r (some content) = extract_table_row values resource content

  unfoldable pub list_rows : List Listed → List TableRow
  list_rows [] = []
  list_rows (r ∷ results) = elim r.error [
    | none ↦ row_of_content r r.content ∷ list_rows results
    | some e ↦ list_rows results
  ]

  abbrev print_rows : List TableRow → Printed
  print_rows [] = no_resources_found
  print_rows (row ∷ rows) = printed_table (print_resource_table resource (row ∷ rows))

  abbrev lines_or_error : Result (List String) → Result Printed
  lines_or_error (ok lines) = ok (printed_lines lines)
  lines_or_error (err e) = err e

  -- What runGetList prints of its results, and its warnings.
  unfoldable pub print_list : OutputFormat → List Listed → Result Printed × List String
  unfolding list_items list_warnings list_rows
  print_list format [] = (ok no_resources_found, [])
  print_list output_json (r ∷ results) =
      (lines_or_error (print_resource_list_json values (list_items (r ∷ results))), [])
  print_list output_yaml (r ∷ results) =
      (ok (printed_lines (print_resource_list_yaml values (list_items (r ∷ results)))), [])
  print_list output_table (r ∷ results) =
      (ok (print_rows (list_rows (r ∷ results))), list_warnings (r ∷ results))
  print_list output_wide (r ∷ results) =
      (ok (print_rows (list_rows (r ∷ results))), list_warnings (r ∷ results))

  -- What runGetNamed prints of the content.
  unfoldable pub print_named : OutputFormat → String → Printed
  print_named output_json content = printed_lines (print_resource_json values content)
  print_named output_yaml content = printed_lines (print_resource_yaml values content)
  print_named output_table content =
      printed_table (print_resource_table resource (extract_table_row values resource content ∷ []))
  print_named output_wide content =
      printed_table (print_resource_table resource (extract_table_row values resource content ∷ []))

  rows_and_warnings :
      (results : List Listed)
      → length (list_rows results) + length (list_warnings results) ≡ length results
  unfolding list_rows list_warnings
  rows_and_warnings [] = refl
  rows_and_warnings (r ∷ results) = ground (arith, rows_and_warnings results)

  -- The lines of a printed table, without its header.
  abbrev pub table_lines : Result Printed → ℕ
  table_lines (ok (printed_table [])) = 0
  table_lines (ok (printed_table (header ∷ lines))) = length lines
  table_lines (ok (printed_lines lines)) = 0
  table_lines (err e) = 0

  lines-print_rows : (rows : List TableRow) → table_lines (ok (print_rows rows)) ≡ length rows
  unfolding print_resource_table
  lines-print_rows [] = refl
  lines-print_rows (row ∷ rows) = length-map (λ r. map (cell r) (columns_of resource)) (row ∷ rows)

  -- A table tells of every resource that was listed: each has either a line of the table or a warning.
  pub print_list-tells :
      (results : List Listed)
      → let (printed, warnings) = print_list output_table results in
        table_lines printed + length warnings ≡ length results
  unfolding print_list
  print_list-tells [] = refl
  print_list-tells (r ∷ results) =
      omega (arith, lines-print_rows (list_rows (r ∷ results)), rows_and_warnings (r ∷ results))
