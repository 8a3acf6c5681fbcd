-- ===== src/Database/Crud/Reads.antt =====
-- Get, by what the table has.
use rosa_hyperfleet_kube_app.Prelude.{String, ◌≡◌, Option, none, some, [], ◌∷◌, arith}
use rosa_hyperfleet_kube_app.Base.{not_found, Result, ok, err}
use rosa_hyperfleet_kube_app.Api.{Desire}
use rosa_hyperfleet_kube_app.Dynamo.Client.{IsAvailable, Item}
use rosa_hyperfleet_kube_app.Database.Items.{item_to_desire}
use rosa_hyperfleet_kube_app.Database.Crud.{Backend, IsBackend, get, get_result}

module _ {W V T : Type 0} ⦃t : Desire T⦄ (b : Backend W V T) (table : String) where
  abbrev pub decoded : Option Item → Result T
  decoded none = err not_found
  decoded (some i) = item_to_desire b.json b.codec i

  answer-decoded :
      (id : String) (i : Item) (o : Option Item)
      → o ≡ (elim i [ [] ↦ none | a ∷ r ↦ some (a ∷ r) ])
      → get_result b table id (ok i) ≡ decoded o
  unfolding get_result
  answer-decoded id [] o h = ground arith
  answer-decoded id (a ∷ r) o h = ground arith

module _ {W V T : Type 0} ⦃t : Desire T⦄ (b : Backend W V T) (law : IsBackend b)
    (available : IsAvailable b.client) (table : String) where
  open law use {dynamo}

  pub get-item_at :
      (id : String) (w : W) → (get b table id w).0 ≡ decoded b table (dynamo.item_at w table id)
  unfolding get
  get-item_at id w =
      let (i, answer) = available.get_item_answers w table id in
      rw answer (answer-decoded b table id i _ (dynamo.get_item-ok w table id i answer))
