-- ===== src/Dynamo/Polling/Pages.antt =====
-- The page loops end: with more fuel than pages, they return a result.
use rosa_hyperfleet_kube_app.Prelude.{
  ℕ, zero, suc, ◌<◌, String, ◌≡◌, refl, ◌⊎◌, inl, inr, some, [], ◌∷◌, Assoc, arith,
}
use rosa_hyperfleet_kube_app.Base.{wrap, concat, Result, ok, err, Result-cases}
use rosa_hyperfleet_kube_app.Dynamo.Client.{Client, Item, Page, AttributeValue}
use rosa_hyperfleet_kube_app.Dynamo.Polling.{Poller, scan_from, scan_all, collect_items}

-- A scan has finitely many pages: `pages_left` falls with every page that is not the last.
pub record IsPaged {W : Type 0} (c : Client W) (table : String) : Type 0 where
  pub pages_left : W → Item → ℕ
  pub pages_left_falls :
      (w : W) (key : Item) (page : Page) (a : String × AttributeValue) (r : Item)
      → (c.scan table key w).0 ≡ ok page
      → page.last_evaluated_key ≡ a ∷ r
      → pages_left (c.scan table key w).1 (a ∷ r) < pages_left w key

pub Item-cases : (i : Item) → (i ≡ []) ⊎ ((a : String × AttributeValue) × (r : Item) × (i ≡ a ∷ r))
Item-cases [] = inl refl
Item-cases (a ∷ r) = inr (a, r, refl)

module _ {W : Type 0} (p : Poller W) (table : String) (paged : IsPaged p.client table) where
  open paged use {pages_left, pages_left_falls}

  scan_from_ends :
      (fuel : ℕ) (key : Item) (results : Assoc String Item) (w : W)
      → pages_left w key < fuel
      → (r : Result (Assoc String Item)) × ((scan_from p table fuel key results w).0 ≡ some r)
  unfolding scan_from
  scan_from_ends zero key results w h = absurd (omega arith)
  scan_from_ends (suc fuel) key results w h = elim (Result-cases (p.client.scan table key w).0) [
    | inl (e, failed) ↦ (err (wrap (concat ("scan " ∷ table ∷ [])) e), rw (scan_from, failed))
    | inr (page, found) ↦ elim (Item-cases page.last_evaluated_key) [
      | inl last ↦ (ok (collect_items p page.items results), rw (scan_from, found, last))
      | inr (a, r, more) ↦
          let (result, ends) =
            scan_from_ends fuel (a ∷ r) (collect_items p page.items results)
              (p.client.scan table key w).1
              (omega (arith, pages_left_falls w key page a r found more, h)) in
          (result, rw (scan_from, found, more) ends)
    ]
  ]

  -- ScanAll returns, with an error or a map, when it has more fuel than the scan has pages.
  pub scan_all_ends :
      (fuel : ℕ) (w : W)
      → pages_left w [] < fuel
      → (r : Result (Assoc String Item)) × ((scan_all p table fuel w).0 ≡ some r)
  unfolding scan_all
  scan_all_ends fuel w h = scan_from_ends fuel [] [] w h
