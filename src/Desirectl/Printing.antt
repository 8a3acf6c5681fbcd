-- ===== src/Desirectl/Printing.antt =====
-- cmd/desirectl/output.go: what the get command prints, as lines, and as cells for a table, which
-- text/tabwriter aligns. encoding/json, sigs.k8s.io/yaml and the values of type any are parameters.
pub mod Columns
pub mod Rows
pub mod Results
use rosa_hyperfleet_kube_app.Prelude.{
  ℕ, String, Option, none, some, List, [], ◌∷◌, ◌++◌, map, Assoc, lookup, insert, if◌then◌else◌,
  ◌==◌, string_eq,
}
use rosa_hyperfleet_kube_app.Prelude.Int.{ℤ, pos}
use rosa_hyperfleet_kube_app.Base.{GoError, concat, Result, ok, err, ◌>>=◌}

pub data OutputFormat : Type 0 where
  output_table output_json output_yaml output_wide : OutputFormat

unfoldable pub parse_output_format : String → OutputFormat
parse_output_format s =
    if s == "json"
    then output_json
    else if s == "yaml"
    then output_yaml
    else if s == "wide"
    then output_wide
    else output_table

-- Values of type any, and of map[string]any, with int's addition and its text.
pub record Values (J : Type 0) : Type 0 where
  pub unmarshal : String → Result J
  pub unmarshal_object : String → Result J
  pub marshal_indent : J → Result String
  pub from_string : String → J
  pub from_list : List J → J
  pub json_to_yaml : String → Result String
  pub member : J → String → Option J
  pub as_string : J → Option String
  pub as_object : J → Option J
  pub as_list : J → Option (List J)
  -- int(v) of a float64, or an int
  pub as_int : J → Option ℤ
  -- len of a map
  pub size : J → ℤ
  pub add : ℤ → ℤ → ℤ
  pub show : ℤ → String

module _ {J : Type 0} (values : Values J) where
  abbrev or_raw : String → Result String → List String
  or_raw kube_content (ok formatted) = formatted ∷ []
  or_raw kube_content (err e) = kube_content ∷ []

  unfoldable pub print_resource_json : String → List String
  print_resource_json kube_content =
      or_raw kube_content (do obj ← values.unmarshal kube_content; values.marshal_indent obj)

  unfoldable pub print_resource_yaml : String → List String
  print_resource_yaml kube_content = or_raw kube_content (values.json_to_yaml kube_content)

  abbrev object_or_text : String → Result J → J
  object_or_text item (ok obj) = obj
  object_or_text item (err e) = values.from_string item

  unfoldable pub print_resource_list_json : List String → Result (List String)
  print_resource_list_json items = do
    formatted ←
        values.marshal_indent
          (values.from_list (map (λ item. object_or_text item (values.unmarshal item)) items))
    ok (formatted ∷ [])

  -- The items after the first.
  abbrev yaml_rest : List String → List String
  yaml_rest [] = []
  yaml_rest (item ∷ items) = "---" ∷ (or_raw item (values.json_to_yaml item) ++ yaml_rest items)

  unfoldable pub print_resource_list_yaml : List String → List String
  print_resource_list_yaml [] = []
  print_resource_list_yaml (item ∷ items) =
      or_raw item (values.json_to_yaml item) ++ yaml_rest items

pub record TableRow : Type 0 where
  pub name : String
  pub namespace : String
  pub extra : Assoc String String

abbrev pub generic_columns : List String
generic_columns = "NAME" ∷ "NAMESPACE" ∷ []

abbrev pub type_columns : Assoc String (List String)
type_columns =
    ("deployments", "NAME" ∷ "NAMESPACE" ∷ "READY" ∷ "UP-TO-DATE" ∷ "AVAILABLE" ∷ [])
    ∷ ("pods", "NAME" ∷ "NAMESPACE" ∷ "STATUS" ∷ "RESTARTS" ∷ [])
    ∷ ("services", "NAME" ∷ "NAMESPACE" ∷ "TYPE" ∷ "CLUSTER-IP" ∷ [])
    ∷ ("configmaps", "NAME" ∷ "NAMESPACE" ∷ "DATA" ∷ [])
    ∷ ("secrets", "NAME" ∷ "NAMESPACE" ∷ "TYPE" ∷ "DATA" ∷ [])
    ∷ ("statefulsets", "NAME" ∷ "NAMESPACE" ∷ "READY" ∷ [])
    ∷ ("daemonsets", "NAME" ∷ "NAMESPACE" ∷ "DESIRED" ∷ "CURRENT" ∷ "READY" ∷ [])
    ∷ []

abbrev or_generic : Option (List String) → List String
or_generic none = generic_columns
or_generic (some columns) = columns

abbrev pub columns_of : String → List String
columns_of res_type = or_generic (lookup res_type type_columns)

-- row.extra[col], which is "" for a missing key.
abbrev extra_cell : Option String → String
extra_cell none = "<none>"
extra_cell (some val) = if val == "" then "<none>" else val

unfoldable pub cell : TableRow → String → String
unfolding lookup
cell row col =
    if col == "NAME"
    then row.name
    else if col == "NAMESPACE"
    then row.namespace
    else extra_cell (lookup col row.extra)

-- The header, and a line for each row.
unfoldable pub print_resource_table : String → List TableRow → List (List String)
unfolding lookup cell
print_resource_table res_type rows =
    let columns = columns_of res_type in columns ∷ map (λ row. map (cell row) columns) rows
