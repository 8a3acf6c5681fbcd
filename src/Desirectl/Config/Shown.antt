-- ===== src/Desirectl/Config/Shown.antt =====
-- The commands get-contexts and current-context of cmd/desirectl/config_cmd.go: what they print, as lines, or
-- as cells for a table, which text/tabwriter aligns.
use std.Path.{subst}
use rosa_hyperfleet_kube_app.Prelude.{
  String, ◌≡◌, refl, ◌∙◌, inl, inr, Bool, false, Bool-cases, Option-cases, sym, Option, none, some,
  List, [], ◌∷◌, if◌then◌else◌, ◌==◌, string_eq, beq_refl, eq_iff,
}
use rosa_hyperfleet_kube_app.Base.{plain, Result, ok, err, Io}
use rosa_hyperfleet_kube_app.Desirectl.Config.{
  Config, ConfigFile, Context, NamedContext, find_context, get_context, load_config,
  resolve_active_context,
}
use rosa_hyperfleet_kube_app.Desirectl.Config.Contexts.{IsUnique}

pub data Shown : Type 0 where
  shown_line : String → Shown
  shown_table : List (List String) → Shown

abbrev pub context_row : String → NamedContext → List String
context_row current nc =
    (if nc.name == current then "*" else "")
    ∷ nc.name
    ∷ nc.context.aws_region
    ∷ nc.context.cluster_id
    ∷ nc.context.namespace
    ∷ []

abbrev pub context_rows : String → List NamedContext → List (List String)
context_rows current [] = []
context_rows current (nc ∷ contexts) = context_row current nc ∷ context_rows current contexts

abbrev pub header : List String
header = "CURRENT" ∷ "NAME" ∷ "AWS-REGION" ∷ "CLUSTER" ∷ "NAMESPACE" ∷ []

abbrev pub show_contexts : String → List NamedContext → Shown
show_contexts current [] = shown_line "No contexts configured."
show_contexts current (nc ∷ contexts) = shown_table (header ∷ context_rows current (nc ∷ contexts))

abbrev pub show_current : String → Result Shown
show_current current =
    if current == "" then err (plain "no current context set") else ok (shown_line current)

module _ {W : Type 0} (f : ConfigFile W) where
  unfoldable pub get_contexts : Io W (Result Shown)
  get_contexts w =
      let (r, w') = load_config f w in
      elim r [
        | err e ↦ (err e, w')
        | ok cfg ↦ (ok (show_contexts cfg.current_context cfg.contexts), w')
      ]

  unfoldable pub current_context_command : Io W (Result Shown)
  current_context_command w =
      let (r, w') = load_config f w in
      elim r [ err e ↦ (err e, w') | ok cfg ↦ (show_current cfg.current_context, w') ]

abbrev is_marked : List String → Bool
is_marked [] = false
is_marked (mark ∷ cells) = mark == "*"

abbrev pub marked : List (List String) → List (List String)
marked [] = []
marked (row ∷ rows) = if is_marked row then row ∷ marked rows else marked rows

abbrev pub row_of_active : String → Result Context → List (List String)
row_of_active current (err e) = []
row_of_active current (ok ctx) =
    ("*" ∷ current ∷ ctx.aws_region ∷ ctx.cluster_id ∷ ctx.namespace ∷ []) ∷ []

abbrev row_of_found : String → Option Context → List (List String)
row_of_found current none = []
row_of_found current (some ctx) =
    ("*" ∷ current ∷ ctx.aws_region ∷ ctx.cluster_id ∷ ctx.namespace ∷ []) ∷ []

marked-rows :
    (current : String) (contexts : List NamedContext)
    → IsUnique contexts
    → marked (context_rows current contexts) ≡ row_of_found current (find_context current contexts)
marked-rows current [] h = refl
marked-rows current (nc ∷ contexts) (new, h) = elim (Bool-cases (nc.name == current)) [
  | inl same ↦
      subst
        (λ x.
          marked (context_rows x (nc ∷ contexts)) ≡ row_of_found x (find_context x (nc ∷ contexts)))
        ((eq_iff nc.name current).0 same)
        (rw (beq_refl nc.name, marked-rows nc.name contexts h, new))
  | inr other ↦ rw other (marked-rows current contexts h)
]

-- What is resolved without the flag, when a current context is set.
found_rows :
    (c : Config)
    → (c.current_context == "") ≡ false
    → row_of_active c.current_context (resolve_active_context c "")
      ≡ row_of_found c.current_context (get_context c c.current_context)
unfolding resolve_active_context
found_rows c set = elim (Option-cases (get_context c c.current_context)) [
  | inl absent ↦ rw (resolve_active_context, set, absent)
  | inr (ctx, found) ↦ rw (resolve_active_context, set, found)
]

-- If no two contexts have one name and a current context is set, then get-contexts marks exactly the
-- context that the other commands work with, and none where they fail for want of it.
pub marked-resolve_active_context :
    (c : Config)
    → IsUnique c.contexts
    → (c.current_context == "") ≡ false
    → marked (context_rows c.current_context c.contexts)
      ≡ row_of_active c.current_context (resolve_active_context c "")
unfolding get_context
marked-resolve_active_context c h set =
    marked-rows c.current_context c.contexts h ∙ sym (found_rows c set)
