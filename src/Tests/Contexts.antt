-- ===== src/Tests/Contexts.antt =====
-- The tool's configuration with two contexts.
use rosa_hyperfleet_kube_app.Prelude.{String, ◌≡◌, ◌≢◌, refl, inr, [], ◌∷◌}
use rosa_hyperfleet_kube_app.Base.{ok}
use rosa_hyperfleet_kube_app.Desirectl.Config.{
  Config, Context, get_context, delete_context, apply_command, delete_context_command,
}
use rosa_hyperfleet_kube_app.Desirectl.Config.Contexts.{IsValid}
use rosa_hyperfleet_kube_app.Desirectl.Config.Commands.{apply_command-IsValid}
use rosa_hyperfleet_kube_app.Desirectl.Config.Shown.{
  context_rows, marked, show_contexts, shown_line,
}

abbrev context_in : String → Context
context_in region = record {
  aws_region = region;
  endpoint_url = "";
  management_cluster = "mc";
  cluster_id = "c";
  node_pool = "";
  namespace = "";
  specs_table_prefix = "";
  status_table_prefix = "";
}

abbrev config : Config
config = record {
  api_version = "desirectl/v1";
  kind = "Config";
  current_context = "a";
  contexts =
      record { name = "a"; context = context_in "us" }
      ∷ record { name = "b"; context = context_in "eu" }
      ∷ [];
}

config-IsValid : IsValid config
unfolding get_context
config-IsValid = ((refl, (refl, tt)), inr (context_in "us", refl))

abbrev without_a : Config
without_a = record config {
  current_context = "";
  contexts = record { name = "b"; context = context_in "eu" } ∷ [];
}

delete_a : apply_command (delete_context_command "a") config ≡ ok without_a
unfolding apply_command delete_context
delete_a = refl

apply_command-IsValid_example : IsValid without_a
apply_command-IsValid_example =
    apply_command-IsValid (delete_context_command "a") config without_a config-IsValid delete_a

a-ne-unset : ◌≢◌ {A = String} "a" ""
a-ne-unset h = absurd (cc h)

-- The current context is marked.
marked_a : marked (context_rows "a" config.contexts) ≡ ("*" ∷ "a" ∷ "us" ∷ "c" ∷ "" ∷ []) ∷ []
marked_a = refl

no_contexts_shown : show_contexts "" [] ≡ shown_line "No contexts configured."
no_contexts_shown = refl
