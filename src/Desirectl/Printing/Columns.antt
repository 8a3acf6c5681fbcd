-- ===== src/Desirectl/Printing/Columns.antt =====
-- The columns of a table and the fields that the extractors fill in.
use std.Path.{subst}
use rosa_hyperfleet_kube_app.Prelude.{
  String, ◌≡◌, refl, sym, Bool, true, false, ◌||◌, Option, none, some, List, [], ◌∷◌, Assoc, lookup,
  insert, contains, ◌==◌, string_eq, eq_iff, arith, Bool-cases, Option-cases, inl, inr,
  lookup-insert,
}
use rosa_hyperfleet_kube_app.Base.{ok}
use rosa_hyperfleet_kube_app.Desirectl.Printing.{Values, columns_of}
use rosa_hyperfleet_kube_app.Desirectl.Printing.Rows.{
  extract_deployment_fields, extract_config_map_fields, extract_secret_fields,
  extract_service_fields, extract_pod_fields, extract_stateful_set_fields,
  extract_daemon_set_fields, extract_extra, extract_table_row, pod_statuses,
}

-- The columns after NAME and NAMESPACE.
abbrev pub after_two : List String → List String
after_two [] = []
after_two (a ∷ []) = []
after_two (a ∷ b ∷ columns) = columns

abbrev pub extra_columns : String → List String
extra_columns res_type = after_two (columns_of res_type)

abbrev pub is_filled : Option String → Bool
is_filled none = false
is_filled (some s) = true

filled-insert :
    (col k v : String) (extra : Assoc String String)
    → is_filled (lookup col (insert k v extra)) ≡ (k == col || is_filled (lookup col extra))
filled-insert col k v extra = elim (Bool-cases (k == col)) [
  | inl same ↦ rw (lookup-insert k col v extra, same) refl
  | inr other ↦ rw (lookup-insert k col v extra, other) refl
]

filled-nil : (col : String) → is_filled (lookup col []) ≡ false
unfolding lookup
filled-nil col = refl

module _ {J : Type 0} (values : Values J) (obj : J) (col : String) where
  -- The extra fields of a type's rows are those that its columns ask for.
  abbrev FillsColumns : String → Assoc String String → Type 0
  FillsColumns res_type extra = is_filled (lookup col extra) ≡ contains (extra_columns res_type) col

  fills_deployments : FillsColumns "deployments" (extract_deployment_fields values obj [])
  unfolding extract_deployment_fields lookup
  fills_deployments = simp (filled-insert, filled-nil) (ground arith)

  fills_configmaps : FillsColumns "configmaps" (extract_config_map_fields values obj [])
  unfolding extract_config_map_fields lookup
  fills_configmaps = simp (filled-insert, filled-nil) (ground arith)

  fills_secrets : FillsColumns "secrets" (extract_secret_fields values obj [])
  unfolding extract_secret_fields lookup
  fills_secrets = simp (filled-insert, filled-nil) (ground arith)

  fills_services : FillsColumns "services" (extract_service_fields values obj [])
  unfolding extract_service_fields lookup
  fills_services = simp (filled-insert, filled-nil) (ground arith)

  fills_statefulsets : FillsColumns "statefulsets" (extract_stateful_set_fields values obj [])
  unfolding extract_stateful_set_fields lookup
  fills_statefulsets = simp (filled-insert, filled-nil) (ground arith)

  fills_daemonsets : FillsColumns "daemonsets" (extract_daemon_set_fields values obj [])
  unfolding extract_daemon_set_fields lookup
  fills_daemonsets = simp (filled-insert, filled-nil) (ground arith)

  fills_pods : FillsColumns "pods" (extract_pod_fields values obj [])
  unfolding extract_pod_fields lookup
  fills_pods = elim (Option-cases (pod_statuses values obj)) [
    | inl absent ↦ rw absent (simp (filled-insert, filled-nil) (ground arith))
    | inr (statuses, found) ↦ rw found (simp (filled-insert, filled-nil) (ground arith))
  ]

  of_type :
      (res_type known : String)
      → (res_type == known) ≡ true
      → FillsColumns known (extract_extra values known obj)
      → FillsColumns res_type (extract_extra values res_type obj)
  of_type res_type known same fills =
      subst (λ r. FillsColumns r (extract_extra values r obj))
        (sym ((eq_iff res_type known).0 same)) fills

  other_way : (a b : String) → (a == b) ≡ false → (b == a) ≡ false
  other_way a b h = ground (arith, eq_iff a b, eq_iff b a)

  fills_columns : (res_type : String) → FillsColumns res_type (extract_extra values res_type obj)
  unfolding extract_extra lookup
  fills_columns res_type = elim (Bool-cases (res_type == "deployments")) [
    | inl same ↦ of_type res_type "deployments" same fills_deployments
    | inr n0 ↦ elim (Bool-cases (res_type == "configmaps")) [
      | inl same ↦ of_type res_type "configmaps" same fills_configmaps
      | inr n1 ↦ elim (Bool-cases (res_type == "secrets")) [
        | inl same ↦ of_type res_type "secrets" same fills_secrets
        | inr n2 ↦ elim (Bool-cases (res_type == "services")) [
          | inl same ↦ of_type res_type "services" same fills_services
          | inr n3 ↦ elim (Bool-cases (res_type == "pods")) [
            | inl same ↦ of_type res_type "pods" same fills_pods
            | inr n4 ↦ elim (Bool-cases (res_type == "statefulsets")) [
              | inl same ↦ of_type res_type "statefulsets" same fills_statefulsets
              | inr n5 ↦ elim (Bool-cases (res_type == "daemonsets")) [
                | inl same ↦ of_type res_type "daemonsets" same fills_daemonsets
                | inr n6 ↦
                    rw
                      (
                        n0,
                        n1,
                        n2,
                        n3,
                        n4,
                        n5,
                        n6,
                        other_way res_type "deployments" n0,
                        other_way res_type "configmaps" n1,
                        other_way res_type "secrets" n2,
                        other_way res_type "services" n3,
                        other_way res_type "pods" n4,
                        other_way res_type "statefulsets" n5,
                        other_way res_type "daemonsets" n6,
                      )
                      refl
              ]
            ]
          ]
        ]
      ]
    ]
  ]

  -- The row of a resource whose manifest parses has exactly the fields for which its table has a column,
  -- besides NAME and NAMESPACE: for every type, known or not, no column is left without its field
  -- and no field is extracted in vain.
  pub extract_table_row-columns :
      (res_type kube_content : String)
      → values.unmarshal_object kube_content ≡ ok obj
      → is_filled (lookup col (extract_table_row values res_type kube_content).extra)
        ≡ contains (extra_columns res_type) col
  unfolding extract_table_row extract_extra lookup
  extract_table_row-columns res_type kube_content parsed = rw parsed (fills_columns res_type)
