-- ===== src/Dynamo/Cache/Relist.antt =====
-- What the cache's methods report, for every document, and what they leave in the cache.
use rosa_hyperfleet_kube_app.Prelude.{
  ℕ, String, ◌≡◌, refl, ◌∙◌, false, not, ◌&&◌, Option, none, some, List, [], ◌∷◌, Assoc, lookup,
  IsMap, contains, string_eq, nat_eq, arith, eq_refl, beq_refl,
}
use rosa_hyperfleet_kube_app.Dynamo.Cache.{
  Cache, RelistDiff, find_changed, apply_stubs, apply_relist, missing_from,
}
use rosa_hyperfleet_kube_app.Dynamo.Cache.Changes.{
  is_some, differs, or_else, contains-changed_in, lookup-copy_into, copy_into-IsMap,
  contains-missing_from, contains-diff_stubs,
}

pub nil_of_contains : (xs : List String) → ((k : String) → contains xs k ≡ false) → xs ≡ []
nil_of_contains [] h = refl
nil_of_contains (x ∷ xs) h = ground (arith, h x, eq_refl x)

pub differs_self : (o : Option ℕ) → differs o o ≡ false
differs_self none = refl
differs_self (some ut) = rw beq_refl

module _ (c : Cache) (stubs : Assoc String ℕ) where
  -- FindChanged, of stubs with each document once, returns exactly the documents of the stubs
  -- that the cache lacks or has with another update time.
  pub contains-find_changed :
      (k : String)
      → IsMap stubs
      → contains (find_changed c stubs) k ≡ differs (lookup k stubs) (lookup k c.items)
  unfolding find_changed
  contains-find_changed k h = contains-changed_in c.items stubs k h

  -- ApplyStubs, of stubs with each document once, takes over the time of every stub, keeps every
  -- other document and the relist time, and leaves nothing of the stubs to report.
  pub apply_stubs_exact :
      IsMap stubs
      → ((k : String)
          → lookup k (apply_stubs c stubs).items ≡ or_else (lookup k stubs) (lookup k c.items))
        × ((apply_stubs c stubs).last_relist_at ≡ c.last_relist_at)
        × (find_changed (apply_stubs c stubs) stubs ≡ [])
  unfolding apply_stubs find_changed
  apply_stubs_exact h = (
    (λ k. lookup-copy_into c.items stubs k h),
    refl,
    nil_of_contains _ λ k.
        contains-changed_in _ stubs k h
        ∙ ground (arith, lookup-copy_into c.items stubs k h, differs_self (lookup k stubs)),
  )

  pub apply_stubs-IsMap : IsMap c.items → IsMap (apply_stubs c stubs).items
  unfolding apply_stubs
  apply_stubs-IsMap h = copy_into-IsMap c.items stubs h

  module _ (now : ℕ) where
    -- ApplyRelist, over maps: a document is reported as added if only the scan has it, as modified if
    -- both have it with different times, as deleted if only the cache has it, and in no other
    -- case; the cache then has the documents and times of the scan, and the time of the relist.
    pub apply_relist_exact :
        (k : String)
        → IsMap c.items
        → IsMap stubs
        → let (d, c') = apply_relist now c stubs in
          (contains d.added k ≡ (is_some (lookup k stubs) && not (is_some (lookup k c.items))))
          × (contains d.modified k
              ≡ (differs (lookup k stubs) (lookup k c.items) && is_some (lookup k c.items)))
          × (contains d.deleted k ≡ (is_some (lookup k c.items) && not (is_some (lookup k stubs))))
          × (lookup k c'.items ≡ lookup k stubs)
          × (c'.last_relist_at ≡ some now)
          × IsMap c'.items
    unfolding apply_relist lookup
    apply_relist_exact k hc hs =
        let start : RelistDiff = record {
          added = [];
          modified = [];
          deleted = missing_from stubs c.items;
        } in
        let (a, m, e) = contains-diff_stubs c.items stubs start k hs in
        (
          ground (arith, a),
          ground (arith, m),
          rw e (contains-missing_from stubs c.items k hc),
          ground (arith, lookup-copy_into [] stubs k hs),
          refl,
          copy_into-IsMap [] stubs tt,
        )

module _ (c : Cache) (stubs : Assoc String ℕ) (now later : ℕ) where
  -- A second relist that finds what the first one found reports nothing, whatever became of the
  -- first one's reports: the cache takes a report as delivered. Cache and stubs have each
  -- document once.
  pub apply_relist_again :
      IsMap c.items
      → IsMap stubs
      → (apply_relist later (apply_relist now c stubs).1 stubs).0
        ≡ record { added = []; modified = []; deleted = [] }
  apply_relist_again hc hs =
      let c' = (apply_relist now c stubs).1 in
      let seen = λ (k : String). apply_relist_exact c stubs now k hc hs in
      let again = λ (k : String). apply_relist_exact c' stubs later k (seen k).5 hs in
      let added = nil_of_contains _ λ k. ground (arith, (again k).0, (seen k).3) in
      let modified =
        nil_of_contains _
          λ k. ground (arith, (again k).1, (seen k).3, differs_self (lookup k stubs)) in
      let deleted = nil_of_contains _ λ k. ground (arith, (again k).2, (seen k).3) in
      λ i. record { added = added i; modified = modified i; deleted = deleted i }
