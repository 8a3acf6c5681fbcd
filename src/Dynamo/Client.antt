-- ===== src/Dynamo/Client.antt =====
-- What the program uses of the AWS SDK's DynamoDB client, as parameters: attribute values, the calls,
-- and the behaviour of single-item reads and conditional writes that the program relies on.
use rosa_hyperfleet_kube_app.Prelude.{
  ℕ, String, ◌≡◌, ◌≢◌, ◌⊎◌, Bool, true, false, ◌&&◌, Option, none, some, List, [], ◌∷◌, Assoc,
  lookup, if◌then◌else◌, ◌==◌, string_eq, nat_eq,
}
use rosa_hyperfleet_kube_app.Base.{Result, ok, err, Io, conditional_check_failed}

-- types.AttributeValue: the members that the program tells apart. A number attribute is the number
-- that its decimal text stands for.
pub data AttributeValue : Type 0 where
  member_s : String → AttributeValue
  member_n : ℕ → AttributeValue
  member_other : String → AttributeValue

abbrev pub Item : Type 0
Item = Assoc String AttributeValue

-- attributeDocumentID
abbrev pub attribute_document_id : String
attribute_document_id = "documentID"

-- The condition expressions that the program sends with a PutItem.
pub data WriteCondition : Type 0 where
  attribute_not_exists_pk : WriteCondition
  version_is : ℕ → WriteCondition

-- One page of a Scan or a Query: the items and the LastEvaluatedKey.
pub record Page : Type 0 where
  pub items : List Item
  pub last_evaluated_key : Item

pub record Client (W : Type 0) : Type 0 where
  -- the item, empty if there is none; the arguments are the table and the partition key
  pub get_item : String → String → Io W (Result Item)
  pub put_item : String → Item → WriteCondition → Io W (Result (Unit {0}))
  pub delete_item : String → String → Io W (Result (Unit {0}))
  -- the results of a scan paginator's NextPage, one for each time that HasMorePages was true
  pub scan_pages : String → Io W (List (Result (List Item)))
  -- the arguments are the table and the ExclusiveStartKey
  pub scan : String → Item → Io W (Result Page)
  -- the table, the shard, the formatted lower bound of updateTime, and the ExclusiveStartKey
  pub query : String → String → String → Item → Io W (Result Page)
  -- the table and the partition keys; the items found, and the keys that were not processed
  pub batch_get_item : String → List String → Io W (Result (List Item × List String))

-- Whether a condition expression holds of what the table has under the key.
abbrev pub holds : WriteCondition → Option Item → Bool
holds attribute_not_exists_pk none = true
holds attribute_not_exists_pk (some i) = false
holds (version_is v) none = false
holds (version_is v) (some i) = elim (lookup "version" i) [ some (member_n u) ↦ u == v | _ ↦ false ]

-- The documented behaviour of single-item calls on a table whose contents are `item_at`.
pub record IsDynamo {W : Type 0} (c : Client W) : Type 0 where
  pub item_at : W → String → String → Option Item
  pub item_at-ne-nil : (w : W) (t id : String) → item_at w t id ≢ some []
  -- a strongly consistent read returns the item, or nothing; no read changes a table
  pub get_item-ok :
      (w : W) (t id : String) (i : Item)
      → (c.get_item t id w).0 ≡ ok i
      → item_at w t id ≡ (elim i [ [] ↦ none | a ∷ r ↦ some (a ∷ r) ])
  pub get_item-item_at :
      (w : W) (t id t' id' : String) → item_at (c.get_item t id w).1 t' id' ≡ item_at w t' id'
  -- a write that succeeds met its condition, and stored the item under its key
  pub put_item-holds :
      (w : W) (t id : String) (i : Item) (cond : WriteCondition) (u : Unit {0})
      → lookup attribute_document_id i ≡ some (member_s id)
      → (c.put_item t i cond w).0 ≡ ok u
      → holds cond (item_at w t id) ≡ true
  pub put_item-item_at :
      (w : W) (t id : String) (i : Item) (cond : WriteCondition) (u : Unit {0}) (t' id' : String)
      → lookup attribute_document_id i ≡ some (member_s id)
      → (c.put_item t i cond w).0 ≡ ok u
      → item_at (c.put_item t i cond w).1 t' id'
        ≡ (if (t == t') && (id == id') then some i else item_at w t' id')
  -- a rejected write did not meet its condition, and changed nothing
  pub put_item-rejected :
      (w : W) (t id : String) (i : Item) (cond : WriteCondition) (m t' id' : String)
      → lookup attribute_document_id i ≡ some (member_s id)
      → (c.put_item t i cond w).0 ≡ err (conditional_check_failed m)
      → (holds cond (item_at w t id) ≡ false)
        × (item_at (c.put_item t i cond w).1 t' id' ≡ item_at w t' id')
  -- DeleteItem succeeds whether or not there was an item
  pub delete_item-item_at :
      (w : W) (t id : String) (u : Unit {0}) (t' id' : String)
      → (c.delete_item t id w).0 ≡ ok u
      → item_at (c.delete_item t id w).1 t' id'
        ≡ (if (t == t') && (id == id') then none else item_at w t' id')

-- The service answers: a read succeeds, and a conditional write is stored, or rejected for its
-- condition.
pub record IsAvailable {W : Type 0} (c : Client W) : Type 0 where
  pub get_item_answers : (w : W) (t id : String) → (i : Item) × ((c.get_item t id w).0 ≡ ok i)
  pub put_item_answers :
      (w : W) (t : String) (i : Item) (cond : WriteCondition)
      → ((c.put_item t i cond w).0 ≡ ok tt)
        ⊎ ((m : String) × ((c.put_item t i cond w).0 ≡ err (conditional_check_failed m)))
