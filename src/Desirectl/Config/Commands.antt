-- ===== src/Desirectl/Config/Commands.antt =====
-- The commands keep the configuration valid: no name twice, and no current context that is gone.
use std.Path.{subst}
use rosa_hyperfleet_kube_app.Prelude.{
  String, ◌≡◌, ◌≢◌, refl, ◌∙◌, inl, inr, false, if◌then◌else◌, ◌==◌, string_eq, arith, eq_iff,
  eq_refl, Bool-cases, Option-cases,
}
use rosa_hyperfleet_kube_app.Base.{ok}
use rosa_hyperfleet_kube_app.Desirectl.Config.{
  Config, Context, find_context, put_context, drop_context, get_context, set_context,
  delete_context, resolve_active_context, Command, set_context_command, use_context_command,
  delete_context_command, apply_command,
}
use rosa_hyperfleet_kube_app.Desirectl.Config.Contexts.{
  IsUnique, IsSelected, IsValid, find_context-put, find_context-drop, put_context-IsUnique,
  drop_context-IsUnique,
}

kept_by_put :
    (name : String) (ctx : Context) (c : Config)
    → IsSelected c
    → IsSelected (record c { contexts = put_context name ctx c.contexts })
unfolding get_context
kept_by_put name ctx c (inl unset) = inl unset
kept_by_put name ctx c (inr (old, found)) = elim (Bool-cases (name == c.current_context)) [
  | inl same ↦ inr (ctx, find_context-put name c.current_context ctx c.contexts ∙ rw same refl)
  | inr other ↦ inr (old, find_context-put name c.current_context ctx c.contexts ∙ rw other found)
]

kept_by_drop :
    (name : String) (c : Config)
    → IsUnique c.contexts
    → IsSelected c
    → (c.current_context == name) ≡ false
    → IsSelected (record c { contexts = drop_context name c.contexts })
unfolding get_context
kept_by_drop name c unique (inl unset) other = inl unset
kept_by_drop name c unique (inr (ctx, found)) other = inr (
  ctx,
  find_context-drop name c.current_context c.contexts unique
      ∙ ground (arith, eq_iff c.current_context name, eq_iff name c.current_context, found),
)

put-IsSelected :
    (name : String) (ctx : Context) (c : Config)
    → IsSelected c
    → IsSelected (record c {
      contexts = put_context name ctx c.contexts;
      current_context = if c.current_context == "" then name else c.current_context;
    })
unfolding get_context
put-IsSelected name ctx c h = elim (Bool-cases (c.current_context == "")) [
  | inl unset ↦
      rw unset (inr (ctx, find_context-put name name ctx c.contexts ∙ rw (eq_refl name) refl))
  | inr set ↦ rw set (kept_by_put name ctx c h)
]

drop-IsSelected :
    (name : String) (c : Config)
    → IsValid c
    → IsSelected (record c {
      contexts = drop_context name c.contexts;
      current_context = if c.current_context == name then "" else c.current_context;
    })
unfolding get_context
drop-IsSelected name c (unique, h) = elim (Bool-cases (c.current_context == name)) [
  | inl current ↦ rw current (inl refl)
  | inr other ↦ rw other (kept_by_drop name c unique h other)
]

-- What each command does to a valid configuration.
pub set_command-IsValid :
    (name : String) (ctx : Context) (c : Config)
    → IsValid c
    → IsValid (record c {
      contexts = put_context name ctx c.contexts;
      current_context = if c.current_context == "" then name else c.current_context;
    })
set_command-IsValid name ctx c (unique, selected) =
    (put_context-IsUnique name ctx c.contexts unique, put-IsSelected name ctx c selected)

pub delete_command-IsValid :
    (name : String) (c : Config)
    → IsValid c
    → IsValid (record c {
      contexts = drop_context name c.contexts;
      current_context = if c.current_context == name then "" else c.current_context;
    })
delete_command-IsValid name c valid =
    (drop_context-IsUnique name c.contexts valid.0, drop-IsSelected name c valid)

ok-IsValid : (c c' : Config) → IsValid c → ok c ≡ ok c' → IsValid c'
ok-IsValid c c' valid h = let same : c ≡ c' = cc h in subst IsValid same valid

-- Every command that reports no error makes a valid configuration of a valid one: no two contexts
-- have one name, and the current context is unset or one of the contexts.
pub apply_command-IsValid :
    (command : Command) (c c' : Config) → IsValid c → apply_command command c ≡ ok c' → IsValid c'
unfolding apply_command get_context set_context delete_context
apply_command-IsValid (set_context_command name flags) c c' valid done =
    ok-IsValid _ c' (set_command-IsValid name _ c valid) done
apply_command-IsValid (use_context_command name) c c' valid done =
    elim (Option-cases (find_context name c.contexts)) [
      | inl absent ↦ absurd (cc (rw (apply_command, absent) at done))
      | inr (ctx, found) ↦
          ok-IsValid _ c' (valid.0, inr (ctx, found)) (rw (apply_command, found) at done)
    ]
apply_command-IsValid (delete_context_command name) c c' valid done =
    elim (Option-cases (find_context name c.contexts)) [
      | inl absent ↦ absurd (cc (rw (apply_command, absent) at done))
      | inr (ctx, found) ↦
          ok-IsValid _ c' (delete_command-IsValid name c valid) (rw (apply_command, found) at done)
    ]

-- With a valid configuration, a tool that is given no context's name has the current context,
-- if one is set.
pub resolve_active_context-current :
    (c : Config)
    → IsValid c
    → c.current_context ≢ ""
    → (ctx : Context) × (resolve_active_context c "" ≡ ok ctx)
unfolding resolve_active_context get_context
resolve_active_context-current c (unique, inl unset) set = absurd (set unset)
resolve_active_context-current c (unique, inr (ctx, found)) set =
    (ctx, ground (arith, found, set, eq_iff c.current_context ""))
