-- ===== src/Desirectl/Config/Contexts.antt =====
-- Looking contexts up after they have changed, and what every command keeps.
use rosa_hyperfleet_kube_app.Prelude.{
  String, ◌≡◌, refl, ◌⊎◌, inl, inr, true, none, some, List, [], ◌∷◌, if◌then◌else◌, ◌==◌, string_eq,
  arith, eq_iff, Option-cases, Option, false, Bool,
}
use rosa_hyperfleet_kube_app.Desirectl.Config.{
  Config, Context, NamedContext, find_context, put_context, drop_context, get_context, set_context,
  delete_context,
}

-- No two contexts have one name.
abbrev pub IsUnique : List NamedContext → Type 0
IsUnique [] = Unit {0}
IsUnique (nc ∷ contexts) = (find_context nc.name contexts ≡ none) × IsUnique contexts

-- The current context is unset, or one of the contexts.
abbrev pub IsSelected : Config → Type 0
IsSelected c =
    (c.current_context ≡ "") ⊎ ((ctx : Context) × (get_context c c.current_context ≡ some ctx))

abbrev pub IsValid : Config → Type 0
IsValid c = IsUnique c.contexts × IsSelected c

pub find_context-put :
    (name other : String) (ctx : Context) (contexts : List NamedContext)
    → find_context other (put_context name ctx contexts)
      ≡ (if name == other then some ctx else find_context other contexts)
find_context-put name other ctx [] = refl
find_context-put name other ctx (nc ∷ contexts) = ground (
  arith,
  eq_iff nc.name name,
  eq_iff nc.name other,
  eq_iff name other,
  find_context-put name other ctx contexts,
)

pub find_context-drop :
    (name other : String) (contexts : List NamedContext)
    → IsUnique contexts
    → find_context other (drop_context name contexts)
      ≡ (if name == other then none else find_context other contexts)
find_context-drop name other [] h = ground arith
find_context-drop name other (nc ∷ contexts) h = ground (
  arith,
  eq_iff nc.name name,
  eq_iff nc.name other,
  eq_iff name other,
  find_context-drop name other contexts,
)

pub put_context-IsUnique :
    (name : String) (ctx : Context) (contexts : List NamedContext)
    → IsUnique contexts
    → IsUnique (put_context name ctx contexts)
put_context-IsUnique name ctx [] h = (refl, tt)
put_context-IsUnique name ctx (nc ∷ contexts) h = ground (
  arith,
  eq_iff nc.name name,
  eq_iff name nc.name,
  find_context-put name nc.name ctx contexts,
  put_context-IsUnique name ctx contexts h.1,
)

pub drop_context-IsUnique :
    (name : String) (contexts : List NamedContext)
    → IsUnique contexts
    → IsUnique (drop_context name contexts)
drop_context-IsUnique name [] h = tt
drop_context-IsUnique name (nc ∷ contexts) h = ground (
  arith,
  eq_iff nc.name name,
  eq_iff name nc.name,
  find_context-drop name nc.name contexts h.1,
  drop_context-IsUnique name contexts h.1,
)

-- SetContext, then GetContext of any name: the new context under its name, and the old ones under
-- the others.
get_context-set_context :
    (c : Config) (name other : String) (ctx : Context)
    → get_context (set_context c name ctx) other
      ≡ (if name == other then some ctx else get_context c other)
unfolding get_context set_context
get_context-set_context c name other ctx = find_context-put name other ctx c.contexts

abbrev pub is_found : Option Context → Bool
is_found none = false
is_found (some ctx) = true

-- DeleteContext, where no two contexts have one name: it tells whether there was one of that
-- name, and afterwards there is none, and the others are as they were.
get_context-delete_context :
    (c : Config) (name other : String)
    → IsUnique c.contexts
    → (get_context (delete_context c name).1 other
        ≡ (if name == other then none else get_context c other))
      × ((delete_context c name).0 ≡ is_found (get_context c name))
unfolding get_context delete_context
get_context-delete_context c name other h = elim (Option-cases (find_context name c.contexts)) [
  | inl absent ↦ rw absent (ground (arith, eq_iff name other, absent), refl)
  | inr (ctx, found) ↦ rw found (find_context-drop name other c.contexts h, refl)
]
