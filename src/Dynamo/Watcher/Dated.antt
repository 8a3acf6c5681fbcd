-- ===== src/Dynamo/Watcher/Dated.antt =====
-- What the loops over pages collect: each document once, with a time.
use rosa_hyperfleet_kube_app.Prelude.{
  ℕ, zero, suc, String, ◌≡◌, refl, sym, inl, inr, Bool, true, false, Option, none, some, List, [],
  ◌∷◌, Assoc, lookup, insert, IsMap, lookup-insert, insert-IsMap, string_eq, arith, Option-cases,
}
use rosa_hyperfleet_kube_app.Base.{ok, Result-cases}
use rosa_hyperfleet_kube_app.Dynamo.Client.{Item}
use rosa_hyperfleet_kube_app.Dynamo.Cache.Changes.{is_some}
use rosa_hyperfleet_kube_app.Dynamo.Polling.{
  Poller, scan_from, extract_document_id_and_update_time, collect_items, scan_all,
}
use rosa_hyperfleet_kube_app.Dynamo.Polling.Pages.{Item-cases}
use rosa_hyperfleet_kube_app.Dynamo.Watcher.Mirror.{time_of}

abbrev pub present : Option Item → Bool
present none = false
present (some item) = true

module _ {W : Type 0} (p : Poller W) where
  -- Every item has a time that parses.
  abbrev pub IsDated : Assoc String Item → Type 0
  IsDated m = (k : String) → is_some (time_of p (lookup k m)) ≡ present (lookup k m)

  -- What the loops over pages collect: each document once, with a time.
  pub collect_items-IsDated :
      (items : List Item) (results : Assoc String Item)
      → IsMap results
      → IsDated results
      → IsMap (collect_items p items results) × IsDated (collect_items p items results)
  unfolding collect_items
  collect_items-IsDated [] results h dated = (h, dated)
  collect_items-IsDated (item ∷ items) results h dated =
      elim (Option-cases (extract_document_id_and_update_time p item)) [
        | inl skipped ↦ rw skipped (collect_items-IsDated items results h dated)
        | inr ((doc_id, ut), kept) ↦ rw kept (
            collect_items-IsDated items (insert doc_id item results)
              (insert-IsMap doc_id item results h)
              (λ k. ground (arith, lookup-insert doc_id k item results, dated k, kept)))
      ]

  scan_from-IsDated :
      (table : String) (fuel : ℕ) (key : Item) (results full : Assoc String Item) (w : W)
      → IsMap results
      → IsDated results
      → (scan_from p table fuel key results w).0 ≡ some (ok full)
      → IsMap full × IsDated full
  unfolding scan_from
  scan_from-IsDated table zero key results full w h dated done = absurd (cc done)
  scan_from-IsDated table (suc fuel) key results full w h dated done =
      elim (Result-cases (p.client.scan table key w).0) [
        | inl (e, failed) ↦ absurd (cc (rw (scan_from, failed) at done))
        | inr (page, found) ↦
            let collected = collect_items-IsDated page.items results h dated in
            elim (Item-cases page.last_evaluated_key) [
              | inl last ↦
                  let same : collect_items p page.items results ≡ full =
                    cc (rw (scan_from, found, last) at done) in
                  rw (sym same) collected
              | inr (a, r, more) ↦
                  scan_from-IsDated table fuel (a ∷ r) (collect_items p page.items results) full
                    (p.client.scan table key w).1 collected.0 collected.1
                    (rw (scan_from, found, more) at done)
            ]
      ]

  -- A scan that ends gives a map, each of whose items has a time.
  pub scan_all-IsDated :
      (table : String) (fuel : ℕ) (full : Assoc String Item) (w : W)
      → (scan_all p table fuel w).0 ≡ some (ok full)
      → IsMap full × IsDated full
  unfolding scan_all lookup
  scan_all-IsDated table fuel full w done =
      scan_from-IsDated table fuel [] [] full w tt (λ k. refl) done
