-- ===== src/Database/Crud.antt =====
-- dynamoDBSpecReader and dynamoDBDesireCRUD of internal/database/crud.go.
pub mod Reads
pub mod Writes
pub mod Store
use rosa_hyperfleet_kube_app.Prelude.{
  ℕ, ◌+◌, ◌%◌, ◌^◌, String, ◌≡◌, Option, none, some, List, [], ◌∷◌, ◌++◌, if◌then◌else◌, ◌==◌,
  string_eq,
}
use rosa_hyperfleet_kube_app.Base.{
  GoError, not_found, precondition_failed, already_exists, plain, wrap, concat, Result, ok, err, Io,
  is_conditional_check_failed,
}
use rosa_hyperfleet_kube_app.Api.{Desire, get_document_id, get_version}
use rosa_hyperfleet_kube_app.Dynamo.Client.{
  Client, IsDynamo, Item, WriteCondition, attribute_not_exists_pk, version_is,
}
use rosa_hyperfleet_kube_app.Database.RawExtension.{Json, IsJson}
use rosa_hyperfleet_kube_app.Database.Items.{
  AttributeCodec, IsCodec, item_to_desire, desire_to_item,
}

-- What the layer is built on: the client, time.Now, encoding/json, and the attribute codec.
pub record Backend (W V T : Type 0) : Type 0 where
  pub client : Client W
  pub now : Io W ℕ
  pub json : Json V
  pub codec : AttributeCodec T

-- The parameters' laws together; reading the clock changes no table.
pub record IsBackend {W V T : Type 0} ⦃t : Desire T⦄ (b : Backend W V T) : Type 0 where
  pub dynamo : IsDynamo b.client
  pub json_law : IsJson b.json
  pub codec_law : IsCodec b.codec
  pub item_at-now :
      (w : W) (table id : String) → dynamo.item_at (b.now w).1 table id ≡ dynamo.item_at w table id

-- `expectedVersion + 1` on an int64.
abbrev pub next_version : ℕ → ℕ
next_version v = (v + 1) % 2 ^ 64

module _ {W V T : Type 0} ⦃t : Desire T⦄ (b : Backend W V T) (table : String) where
  get_result : String → Result Item → Result T
  get_result document_id (err e) =
      err (wrap (concat ("dynamodb Get " ∷ table ∷ "/" ∷ document_id ∷ [])) e)
  get_result document_id (ok []) = err not_found
  get_result document_id (ok (a ∷ item)) = item_to_desire b.json b.codec (a ∷ item)

  -- Both readers have this method.
  unfoldable pub get : String → Io W (Result T)
  unfolding get_result
  get document_id w =
      let (out, w') = b.client.get_item table document_id w in (get_result document_id out, w')

  -- for _, item := range page.Items
  convert_page : List Item → List T → Result (List T)
  convert_page [] result = ok result
  convert_page (item ∷ items) result = elim (item_to_desire b.json b.codec item) [
    | err e ↦ err (wrap (concat ("dynamodb Scan " ∷ table ∷ " convert" ∷ [])) e)
    | ok obj ↦ convert_page items (result ++ obj ∷ [])
  ]

  -- for paginator.HasMorePages()
  list_pages : List (Result (List Item)) → List T → Result (List T)
  unfolding convert_page
  list_pages [] result = ok result
  list_pages (err e ∷ pages) result = err (wrap (concat ("dynamodb Scan " ∷ table ∷ [])) e)
  list_pages (ok items ∷ pages) result = elim (convert_page items result) [
    | err e ↦ err e
    | ok result' ↦ list_pages pages result'
  ]

  unfoldable pub list : Io W (Result (List T))
  unfolding list_pages
  list w = let (pages, w') = b.client.scan_pages table w in (list_pages pages [], w')

  put_error : GoError → String → String → GoError → GoError
  put_error conflict verb document_id e =
      if is_conditional_check_failed (some e)
      then conflict
      else wrap (concat ("dynamodb " ∷ verb ∷ " " ∷ table ∷ "/" ∷ document_id ∷ [])) e

  put_result : GoError → String → T → Result (Unit {0}) → Result T
  unfolding put_error
  put_result conflict verb out (ok u) = ok out
  put_result conflict verb out (err e) = err (put_error conflict verb (get_document_id out) e)

  -- The end of Create and of Replace: the item is written under a condition.
  unfoldable pub put_desire : GoError → String → WriteCondition → T → Io W (Result T)
  unfolding put_result
  put_desire conflict verb cond out w = elim (desire_to_item b.json b.codec out) [
    | err e ↦ (
      err (wrap (concat ("dynamodb " ∷ verb ∷ " " ∷ table ∷ "/" ∷ get_document_id out ∷ [])) e),
      w,
    )
    | ok item ↦
        let (r, w') = b.client.put_item table item cond w in (put_result conflict verb out r, w')
  ]

  unfoldable pub create : T → Io W (Result T)
  create obj w =
      if get_document_id obj == ""
      then (err (plain (concat ("dynamodb Create " ∷ table ∷ ": DocumentID is empty" ∷ []))), w)
      else let (now, w') = b.now w in
        put_desire already_exists "Create" attribute_not_exists_pk
          (t.set_metadata obj
            (record (t.metadata obj) { version = 1; update_time = now; create_time = now }))
          w'

  unfoldable pub replace : T → Io W (Result T)
  replace obj w =
      let (now, w') = b.now w in
      put_desire precondition_failed "Replace" (version_is (get_version obj))
        (t.set_metadata obj
          (record (t.metadata obj) { version = next_version (get_version obj); update_time = now }))
        w'

  delete_result : String → Result (Unit {0}) → Option GoError
  delete_result document_id (ok u) = none
  delete_result document_id (err e) =
      some (wrap (concat ("dynamodb Delete " ∷ table ∷ "/" ∷ document_id ∷ [])) e)

  unfoldable pub delete : String → Io W (Option GoError)
  unfolding delete_result
  delete document_id w =
      let (r, w') = b.client.delete_item table document_id w in (delete_result document_id r, w')
