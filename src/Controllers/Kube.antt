-- ===== src/Controllers/Kube.antt =====
-- What the controllers use of client-go's dynamic client and of apierrors, as parameters.
use rosa_hyperfleet_kube_app.Prelude.{
  ℕ, String, ◌≡◌, Bool, true, ◌||◌, Option, none, some, ◌==◌, string_eq,
}
use rosa_hyperfleet_kube_app.Base.{GoError, plain, pre_check, Result, ok, err, Io}
use rosa_hyperfleet_kube_app.Api.{ResourceReference}

-- An object of the cluster: its deletionTimestamp, its UID and its generation.
pub record Object : Type 0 where
  pub deletion_timestamp : Option ℕ
  pub uid : String
  pub generation : ℕ

-- The calls are on the resource of a reference, in its namespace if it has one.
pub record KubeApi (W : Type 0) : Type 0 where
  pub get : ResourceReference → Io W (Result Object)
  pub delete : ResourceReference → Io W (Result (Unit {0}))
  -- Apply with a manifest's raw JSON, the field manager, and Force
  pub apply : ResourceReference → String → String → Bool → Io W (Result Object)
  -- unstructured.UnmarshalJSON
  pub unmarshal_json : String → Option GoError
  -- apierrors.IsNotFound
  pub is_not_found : GoError → Bool
  -- time.Now
  pub now : W → ℕ

-- What the delete path relies on: a call that reports NotFound says that there is no such object.
pub record IsKubeApi {W : Type 0} (kube : KubeApi W) : Type 0 where
  pub object_at : W → ResourceReference → Option Object
  pub get-not_found :
      (w : W) (r : ResourceReference) (e : GoError)
      → (kube.get r w).0 ≡ err e
      → kube.is_not_found e ≡ true
      → object_at (kube.get r w).1 r ≡ none
  pub get-ok :
      (w : W) (r : ResourceReference) (o : Object)
      → (kube.get r w).0 ≡ ok o
      → object_at (kube.get r w).1 r ≡ some o
  pub delete-not_found :
      (w : W) (r : ResourceReference) (e : GoError)
      → (kube.delete r w).0 ≡ err e
      → kube.is_not_found e ≡ true
      → object_at (kube.delete r w).1 r ≡ none

-- len(target.Resource) == 0 || len(target.Version) == 0 || len(target.Name) == 0
abbrev pub is_incomplete : ResourceReference → Bool
is_incomplete r = (r.resource == "") || ((r.version == "") || (r.name == ""))

abbrev pub incomplete_target : GoError
incomplete_target = pre_check (plain "spec.targetItem requires version, resource, and name")
