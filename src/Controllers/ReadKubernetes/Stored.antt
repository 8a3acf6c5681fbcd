-- ===== src/Controllers/ReadKubernetes/Stored.antt =====
-- The DynamoDB table of the read desires' status is what the controller of a read desire relies on.
use std.Path.{subst}
use rosa_hyperfleet_kube_app.Prelude.{
  ℕ, Bool, List, String, ◌≡◌, refl, ap, inl, inr, true, false, Option, none, some, ◌==◌, string_eq,
  Bool-cases,
}
use rosa_hyperfleet_kube_app.Base.{Result, ok, Result-cases}
use rosa_hyperfleet_kube_app.Api.{Condition, ReadDesire, RawExtension, read_desire, get_document_id}
use rosa_hyperfleet_kube_app.Dynamo.Client.{IsAvailable}
use rosa_hyperfleet_kube_app.Database.{Json, IsJson, raw_ext_to_string}
use rosa_hyperfleet_kube_app.Database.Items.Assembly.{stored_text, restored}
use rosa_hyperfleet_kube_app.Database.Crud.{Backend, IsBackend}
use rosa_hyperfleet_kube_app.Database.Client.{dynamo_crud}
use rosa_hyperfleet_kube_app.Database.Client.Contract.{dynamo_crud-IsResourceCrud}
use rosa_hyperfleet_kube_app.Controllers.Keys.{ReadDesireKey}
use rosa_hyperfleet_kube_app.Controllers.StatusWriter.Recorded.{IsStatusStore}
use rosa_hyperfleet_kube_app.Controllers.StatusWriter.Backed.{crud_store, crud_store-IsStatusStore}
use rosa_hyperfleet_kube_app.Controllers.ReadKubernetes.{raw_of, extension_of}
use rosa_hyperfleet_kube_app.Controllers.ReadKubernetes.Mirrored.{json_value, read_content}

-- What json.Marshal prints of a value that json.Unmarshal gave of a text parses to that value again.
pub record IsReprinted {V : Type 0} (json : Json V) : Type 0 where
  pub unmarshal-marshal :
      (raw t : String) (v : V)
      → (raw == "") ≡ false
      → json.unmarshal raw ≡ ok v
      → json.marshal v ≡ ok t
      → json.unmarshal t ≡ ok v

module _ {V : Type 0} (json : Json V) (json_law : IsJson json) (law : IsReprinted json) where
  open json_law use {marshal-ne-empty}
  open law use {unmarshal-marshal}

  -- A content field reads back with its value.
  stored_value :
      (x : Option RawExtension) (o : Option String)
      → stored_text json x ≡ ok o
      → json_value json (raw_of (extension_of o)) ≡ json_value json (raw_of x)
  unfolding stored_text raw_ext_to_string
  stored_value none none h = refl
  stored_value none (some u) h = absurd (cc h)
  stored_value (some ext) o h = elim (Bool-cases (ext.raw == "")) [
    | inl empty ↦
        let nothing : ◌≡◌ {A = Result (Option String)} (ok none) (ok o) =
          rw (stored_text, raw_ext_to_string, empty) at h in
        let same : none ≡ o = cc nothing in
        subst (λ x. json_value json (raw_of (extension_of x)) ≡ json_value json ext.raw) same
          (rw empty refl)
    | inr full ↦ elim (Result-cases (json.unmarshal ext.raw)) [
      | inl (e, failed) ↦ absurd (cc (rw (stored_text, raw_ext_to_string, full, failed) at h))
      | inr (v, parsed) ↦ elim (Result-cases (json.marshal v)) [
        | inl (e, failed) ↦
            absurd (cc (rw (stored_text, raw_ext_to_string, full, parsed, failed) at h))
        | inr (u, printed) ↦
            let text : ◌≡◌ {A = Result (Option String)} (ok (some u)) (ok o) =
              rw
                (
                  stored_text,
                  raw_ext_to_string,
                  full,
                  parsed,
                  printed,
                  marshal-ne-empty v u printed,
                )
                at h in
            let same : some u ≡ o = cc text in
            subst (λ x. json_value json (raw_of (extension_of x)) ≡ json_value json ext.raw) same
              (rw
                (
                  marshal-ne-empty v u printed,
                  unmarshal-marshal ext.raw u v full parsed printed,
                  full,
                  parsed,
                )
                refl)
      ]
    ]
  ]

  abbrev with_rest : ReadDesire → Option V → Option V × (List Condition × ℕ)
  with_rest d v = (v, (d.status.conditions, d.status.observed_desire_update_time))

  read_content-restored :
      (d : ReadDesire) (o1 o2 : Option String)
      → stored_text json d.status.kube_content ≡ ok o2
      → read_content json (restored d o1 o2) ≡ read_content json d
  read_content-restored d none none h = ap (with_rest d) (stored_value d.status.kube_content none h)
  read_content-restored d none (some u) h =
      ap (with_rest d) (stored_value d.status.kube_content (some u) h)
  read_content-restored d (some t) none h =
      ap (with_rest d) (stored_value d.status.kube_content none h)
  read_content-restored d (some t) (some u) h =
      ap (with_rest d) (stored_value d.status.kube_content (some u) h)

-- While the service answers, the store that the controllers build on the DynamoDB table keeps what a sync
-- relies on: the value of the JSON content, which the table prints anew, the conditions and the
-- observed update time.
pub read_store-IsStatusStore :
    {W V : Type 0} (b : Backend W V ReadDesire) (law : IsBackend b)
    → IsAvailable b.client
    → IsReprinted b.json
    → (table : String) (name : ReadDesireKey → String) (deep_equal : ReadDesire → ReadDesire → Bool)
      (zero_value : ReadDesire) (clock : W → ℕ) (show_key : ReadDesireKey → String)
    → ((x y : ReadDesire) → deep_equal x y ≡ true → read_content b.json x ≡ read_content b.json y)
    → IsStatusStore
        (crud_store (dynamo_crud b table) name deep_equal zero_value clock show_key)
        (read_content b.json)
        get_document_id
        name
read_store-IsStatusStore b law available again table name deep_equal zero_value clock show_key
      equal =
    crud_store-IsStatusStore (dynamo_crud b table) name deep_equal zero_value clock show_key
      (read_content b.json)
      (dynamo_crud-IsResourceCrud b law available table (read_content b.json)
        (λ d o1 o2 spec status. read_content-restored b.json law.json_law again d o1 o2 status)
        (λ d m. refl))
      equal
