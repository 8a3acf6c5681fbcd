-- ===== src/Desirectl/ResourceTypes.antt =====
-- cmd/desirectl/resource_types.go: the resource types that the tool knows, by name, kind and alias.
use rosa_hyperfleet_kube_app.Prelude.{
  String, Bool, ◌||◌, List, [], ◌∷◌, if◌then◌else◌, ◌==◌, string_eq, contains,
}
use rosa_hyperfleet_kube_app.Base.{plain, concat, Result, ok, err}
use rosa_hyperfleet_kube_app.Api.{ResourceReference}

pub record ResourceInfo : Type 0 where
  pub group : String
  pub version : String
  pub resource : String
  pub kind : String
  pub aliases : List String

abbrev info : String → String → String → List String → ResourceInfo
info group resource kind aliases = record {
  group = group;
  version = "v1";
  resource = resource;
  kind = kind;
  aliases = aliases;
}

abbrev pub known_resources : List ResourceInfo
known_resources =
    info "" "configmaps" "ConfigMap" ("cm" ∷ [])
    ∷ info "" "secrets" "Secret" []
    ∷ info "" "namespaces" "Namespace" ("ns" ∷ [])
    ∷ info "" "services" "Service" ("svc" ∷ [])
    ∷ info "" "serviceaccounts" "ServiceAccount" ("sa" ∷ [])
    ∷ info "" "pods" "Pod" ("po" ∷ [])
    ∷ info "apps" "deployments" "Deployment" ("deploy" ∷ "dep" ∷ [])
    ∷ info "apps" "statefulsets" "StatefulSet" ("sts" ∷ [])
    ∷ info "apps" "daemonsets" "DaemonSet" ("ds" ∷ [])
    ∷ info "batch" "jobs" "Job" []
    ∷ info "batch" "cronjobs" "CronJob" ("cj" ∷ [])
    ∷ info "rbac.authorization.k8s.io" "clusterroles" "ClusterRole" []
    ∷ info "rbac.authorization.k8s.io" "clusterrolebindings" "ClusterRoleBinding" []
    ∷ info "rbac.authorization.k8s.io" "roles" "Role" []
    ∷ info "rbac.authorization.k8s.io" "rolebindings" "RoleBinding" []
    ∷ []

-- strings.ToLower and strings.EqualFold.
pub record Folding : Type 0 where
  pub to_lower : String → String
  pub equal_fold : String → String → Bool

module _ (strings : Folding) where
  abbrev pub answers_to : String → ResourceInfo → Bool
  answers_to lower r =
      (strings.to_lower r.resource == lower)
      || ((strings.to_lower r.kind == lower) || contains r.aliases lower)

  abbrev find_resource : String → String → List ResourceInfo → Result ResourceInfo
  find_resource input lower [] =
      err (plain (concat ("unknown resource type \"" ∷ input ∷ "\"" ∷ [])))
  find_resource input lower (r ∷ rs) =
      if answers_to lower r then ok r else find_resource input lower rs

  unfoldable pub resolve_resource_type : String → Result ResourceInfo
  resolve_resource_type input = find_resource input (strings.to_lower input) known_resources

  abbrev pub find_kind : String → List ResourceInfo → Result ResourceInfo
  find_kind kind [] = err (plain (concat ("unknown kind \"" ∷ kind ∷ "\"" ∷ [])))
  find_kind kind (r ∷ rs) = if strings.equal_fold r.kind kind then ok r else find_kind kind rs

  unfoldable pub resource_type_from_manifest : String → String → Result ResourceInfo
  resource_type_from_manifest api_version kind = find_kind kind known_resources

unfoldable pub resource_ref_from_gvr : ResourceInfo → String → String → ResourceReference
resource_ref_from_gvr r namespace name = record {
  group = r.group;
  version = r.version;
  resource = r.resource;
  namespace = namespace;
  name = name;
}
