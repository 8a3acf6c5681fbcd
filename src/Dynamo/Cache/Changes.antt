-- ===== src/Dynamo/Cache/Changes.antt =====
-- The loops of the cache, one document at a time.
use rosa_hyperfleet_kube_app.Prelude.{
  ℕ, String, ◌≡◌, refl, Bool, true, false, not, ◌&&◌, ◌||◌, Option, none, some, [], ◌∷◌, Assoc,
  lookup, insert, lookup-insert, insert-IsMap, IsMap, contains, string_eq, nat_eq, arith, eq_iff,
}
use rosa_hyperfleet_kube_app.Dynamo.Cache.{
  is_changed, changed_in, copy_into, RelistDiff, diff_stubs, missing_from,
}

abbrev pub is_some : Option ℕ → Bool
is_some none = false
is_some (some t) = true

-- Whether a document of the new stubs is there with another time than the cached one.
abbrev pub differs : Option ℕ → Option ℕ → Bool
differs none cached = false
differs (some ut) cached = is_changed cached ut

abbrev pub or_else : Option ℕ → Option ℕ → Option ℕ
or_else none o = o
or_else (some t) o = some t

pub contains-changed_in :
    (items stubs : Assoc String ℕ) (k : String)
    → IsMap stubs
    → contains (changed_in items stubs) k ≡ differs (lookup k stubs) (lookup k items)
unfolding changed_in lookup
contains-changed_in items [] k h = refl
contains-changed_in items ((j, ut) ∷ stubs) k h =
    ground (arith, contains-changed_in items stubs k h.1, eq_iff j k)

pub lookup-copy_into :
    (items stubs : Assoc String ℕ) (k : String)
    → IsMap stubs
    → lookup k (copy_into items stubs) ≡ or_else (lookup k stubs) (lookup k items)
unfolding copy_into lookup
lookup-copy_into items [] k h = refl
lookup-copy_into items ((j, ut) ∷ stubs) k h = ground (
  arith,
  lookup-copy_into (insert j ut items) stubs k h.1,
  lookup-insert j k ut items,
  eq_iff j k,
)

pub copy_into-IsMap : (items stubs : Assoc String ℕ) → IsMap items → IsMap (copy_into items stubs)
unfolding copy_into
copy_into-IsMap items [] h = h
copy_into-IsMap items ((j, ut) ∷ stubs) h =
    copy_into-IsMap (insert j ut items) stubs (insert-IsMap j ut items h)

pub contains-missing_from :
    (stubs items : Assoc String ℕ) (k : String)
    → IsMap items
    → contains (missing_from stubs items) k
      ≡ (is_some (lookup k items) && not (is_some (lookup k stubs)))
unfolding missing_from lookup
contains-missing_from stubs [] k h = refl
contains-missing_from stubs ((j, ut) ∷ items) k h =
    ground (arith, contains-missing_from stubs items k h.1, eq_iff j k)

-- What the first loop adds to its three results.
pub contains-diff_stubs :
    (items stubs : Assoc String ℕ) (d : RelistDiff) (k : String)
    → IsMap stubs
    → (contains (diff_stubs items stubs d).added k
        ≡ ((is_some (lookup k stubs) && not (is_some (lookup k items))) || contains d.added k))
      × (contains (diff_stubs items stubs d).modified k ≡ (
          (differs (lookup k stubs) (lookup k items) && is_some (lookup k items))
          || contains d.modified k))
      × ((diff_stubs items stubs d).deleted ≡ d.deleted)
unfolding diff_stubs lookup
contains-diff_stubs items [] d k h = (refl, refl, refl)
contains-diff_stubs items ((j, ut) ∷ stubs) d k h =
    let (a, m, e) = contains-diff_stubs items stubs d k h.1 in
    (ground (arith, a, eq_iff j k), ground (arith, m, eq_iff j k), ground (arith, e))
