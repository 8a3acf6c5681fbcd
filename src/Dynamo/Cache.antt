-- ===== src/Dynamo/Cache.antt =====
-- seaplane-dynamo/dynamodb/cache.go: the stub cache of the watcher. Its mutex makes each method one
-- step. A loop over a map runs over its entries in the order of the list.
pub mod Changes
pub mod Relist
use rosa_hyperfleet_kube_app.Prelude.{
  ℕ, String, Bool, true, not, Option, none, some, List, [], ◌∷◌, Assoc, lookup, insert,
  if◌then◌else◌, ◌==◌, string_eq, nat_eq,
}
use rosa_hyperfleet_kube_app.Prelude.Int.{ℤ, sub_ℕ, gtb}

pub record Cache : Type 0 where
  pub items : Assoc String ℕ
  -- nil until the first relist completes
  pub last_relist_at : Option ℕ

abbrev pub new_cache : Cache
new_cache = record { items = []; last_relist_at = none }

-- `!exists || !cached.Equal(ut)`
abbrev pub is_changed : Option ℕ → ℕ → Bool
is_changed none ut = true
is_changed (some cached) ut = not (cached == ut)

pub changed_in : Assoc String ℕ → Assoc String ℕ → List String
changed_in items [] = []
changed_in items ((doc_id, ut) ∷ stubs) =
    let rest = changed_in items stubs in
    if is_changed (lookup doc_id items) ut then doc_id ∷ rest else rest

unfoldable pub find_changed : Cache → Assoc String ℕ → List String
unfolding changed_in
find_changed c stubs = changed_in c.items stubs

-- for docID, ut := range stubs { items[docID] = ut }
pub copy_into : Assoc String ℕ → Assoc String ℕ → Assoc String ℕ
copy_into items [] = items
copy_into items ((doc_id, ut) ∷ stubs) = copy_into (insert doc_id ut items) stubs

unfoldable pub apply_stubs : Cache → Assoc String ℕ → Cache
unfolding copy_into
apply_stubs c stubs = record c { items = copy_into c.items stubs }

pub record RelistDiff : Type 0 where
  pub added : List String
  pub modified : List String
  pub deleted : List String

-- One round of the first loop of ApplyRelist.
abbrev pub diff_stub : Option ℕ → String → ℕ → RelistDiff → RelistDiff
diff_stub none doc_id ut d = record d { added = doc_id ∷ d.added }
diff_stub (some cached) doc_id ut d =
    if not (cached == ut) then record d { modified = doc_id ∷ d.modified } else d

pub diff_stubs : Assoc String ℕ → Assoc String ℕ → RelistDiff → RelistDiff
diff_stubs items [] d = d
diff_stubs items ((doc_id, ut) ∷ stubs) d =
    diff_stub (lookup doc_id items) doc_id ut (diff_stubs items stubs d)

abbrev pub is_missing : Option ℕ → Bool
is_missing none = true
is_missing (some ut) = Bool.false

-- The second loop.
pub missing_from : Assoc String ℕ → Assoc String ℕ → List String
missing_from stubs [] = []
missing_from stubs ((doc_id, ut) ∷ items) =
    let rest = missing_from stubs items in
    if is_missing (lookup doc_id stubs) then doc_id ∷ rest else rest

unfoldable pub apply_relist : ℕ → Cache → Assoc String ℕ → RelistDiff × Cache
unfolding diff_stubs missing_from copy_into
apply_relist now c stubs = (
  diff_stubs c.items stubs
      (record { added = []; modified = []; deleted = missing_from stubs c.items }),
  record { items = copy_into [] stubs; last_relist_at = some now },
)

-- The duration is signed: a wall clock may have been set back.
unfoldable pub effective_lookback : ℕ → Cache → ℤ → ℤ
effective_lookback now c max_lookback = elim c.last_relist_at [
  | none ↦ max_lookback
  | some last ↦
      let elapsed = sub_ℕ now last in if gtb elapsed max_lookback then max_lookback else elapsed
]
