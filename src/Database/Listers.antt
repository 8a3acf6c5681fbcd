-- ===== src/Database/Listers.antt =====
-- internal/database/listers: the typed readers of an informer's store. The store is client-go's
-- cache.Indexer, a parameter; its values are of Go's type any.
use rosa_hyperfleet_kube_app.Prelude.{String, Option, none, some, List, [], ◌∷◌, ◌++◌}
use rosa_hyperfleet_kube_app.Base.{GoError, plain, not_found, Result, ok, err}

-- What a store holds: a desire, or client-go's object that only has a name.
pub data RuntimeObject (T : Type 0) : Type 0 where
  desire : T → RuntimeObject T
  partial_object_metadata : String → RuntimeObject T

-- item.(*T)
abbrev pub typed : {T : Type 0} → RuntimeObject T → Option T
typed (desire d) = some d
typed (partial_object_metadata name) = none

-- fmt.Errorf("expected *%T, got %T", …), whose types are not written out.
abbrev pub unexpected_type : GoError
unexpected_type = plain "unexpected type"

pub record Indexer (S T : Type 0) : Type 0 where
  pub list : S → List (RuntimeObject T)
  pub get_by_key : S → String → Result (Option (RuntimeObject T))

module _ {T : Type 0} where
  -- The loop over store.List(), with the result so far.
  abbrev pub list_items : List (RuntimeObject T) → List T → Result (List T)
  list_items [] result = ok result
  list_items (desire d ∷ items) result = list_items items (result ++ (d ∷ []))
  list_items (partial_object_metadata name ∷ items) result = err unexpected_type

  abbrev typed_or_error : Option T → Result T
  typed_or_error none = err unexpected_type
  typed_or_error (some d) = ok d

  abbrev found_item : Result (Option (RuntimeObject T)) → Result T
  found_item (err e) = err e
  found_item (ok none) = err not_found
  found_item (ok (some item)) = typed_or_error (typed item)

module _ {S T : Type 0} (indexer : Indexer S T) where
  unfoldable pub list_all : S → Result (List T)
  list_all store = list_items (indexer.list store) []

  unfoldable pub get_by_key : S → String → Result T
  get_by_key store key = found_item (indexer.get_by_key store key)

-- ApplyDesireLister and ReadDesireLister, which are alike.
pub record DesireLister (S T : Type 0) : Type 0 where
  pub list : S → Result (List T)
  pub get : S → String → Result T

unfoldable pub new_desire_lister : {S T : Type 0} → Indexer S T → DesireLister S T
new_desire_lister indexer = record { list = list_all indexer; get = get_by_key indexer }
