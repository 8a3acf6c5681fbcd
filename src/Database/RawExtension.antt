-- ===== src/Database/RawExtension.antt =====
-- internal/database/rawext_codec.go: the RawExtension fields, stored as text attributes.
-- encoding/json is a parameter: a type of parsed values with parse, print and a validity test.
use rosa_hyperfleet_kube_app.Prelude.{
  String, ◌≡◌, Bool, true, false, Option, none, some, [], insert, lookup, ◌∷◌, if◌then◌else◌, ◌==◌,
  string_eq,
}
use rosa_hyperfleet_kube_app.Base.{concat, plain, Result, ok, err, ◌>>=◌, wrapping}
use rosa_hyperfleet_kube_app.Api.{RawExtension, Desire}
use rosa_hyperfleet_kube_app.Dynamo.Client.{member_s, Item}

pub record Json (V : Type 0) : Type 0 where
  pub unmarshal : String → Result V
  pub marshal : V → Result String
  pub valid : String → Bool

-- What json.Marshal prints is a valid, nonempty text.
pub record IsJson {V : Type 0} (j : Json V) : Type 0 where
  pub valid-marshal : (v : V) (t : String) → j.marshal v ≡ ok t → j.valid t ≡ true
  pub marshal-ne-empty : (v : V) (t : String) → j.marshal v ≡ ok t → (t == "") ≡ false

abbrev pub raw_ext_field_spec_kube_content : String
raw_ext_field_spec_kube_content = "spec_kubeContent"

abbrev pub raw_ext_field_status_kube_content : String
raw_ext_field_status_kube_content = "status_kubeContent"

module _ {T : Type 0} ⦃t : Desire T⦄ where
  abbrev pub set_spec_if : T → Option (Option RawExtension) → T
  set_spec_if acc none = acc
  set_spec_if acc (some ext) = t.set_spec_kube_content acc ext

  abbrev pub set_status_if : T → Option (Option RawExtension) → T
  set_status_if acc none = acc
  set_status_if acc (some ext) = t.set_status_kube_content acc ext

module _ {V : Type 0} (json : Json V) where
  -- Parsed and printed again, to normalise it.
  unfoldable pub raw_ext_to_string : Option RawExtension → Result String
  raw_ext_to_string none = ok ""
  raw_ext_to_string (some ext) = if ext.raw == "" then ok "" else do
    m ← wrapping "unmarshal RawExtension" (json.unmarshal ext.raw)
    wrapping "marshal RawExtension" (json.marshal m)

  unfoldable pub string_to_raw_ext : String → Result (Option RawExtension)
  string_to_raw_ext t =
      if t == ""
      then ok none
      else if json.valid t
      then ok (some (record { raw = t }))
      else err (plain "stored kubeContent is not valid JSON")

  -- One field of the result map: nothing for a nil field or an empty text.
  unfoldable pub content_attribute : String → Option RawExtension → Item → Result Item
  unfolding raw_ext_to_string
  content_attribute field none result = ok result
  content_attribute field (some ext) result = do
    t ← raw_ext_to_string (some ext)
    if t == "" then ok result else ok (insert field (member_s t) result)

  -- The argument of the setter, if the attribute is there and is a text.
  unfoldable pub content_from_item : String → Item → Result (Option (Option RawExtension))
  unfolding string_to_raw_ext
  content_from_item field item = elim (lookup field item) [
    | some (member_s t) ↦ do
      ext ← wrapping (concat ("read " ∷ field ∷ [])) (string_to_raw_ext t)
      ok (some ext)
    | _ ↦ ok none
  ]

  module _ {T : Type 0} ⦃t : Desire T⦄ where
    unfoldable pub kube_content_attribute_values : T → Result Item
    unfolding content_attribute
    kube_content_attribute_values acc = do
      result ← content_attribute raw_ext_field_spec_kube_content (t.get_spec_kube_content acc) []
      content_attribute raw_ext_field_status_kube_content (t.get_status_kube_content acc) result

    unfoldable pub kube_content_read_from_item : T → Item → Result T
    unfolding content_from_item
    kube_content_read_from_item acc item = do
      spec ← content_from_item raw_ext_field_spec_kube_content item
      status ← content_from_item raw_ext_field_status_kube_content item
      ok (set_status_if (set_spec_if acc spec) status)
