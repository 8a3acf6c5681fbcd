-- ===== src/DesireTool/Agreement.antt =====
-- The developers' tool and the command line tool take the same resource for a kind.
use rosa_hyperfleet_kube_app.Prelude.{
  String, ◌≡◌, refl, sym, ap, ◌∙◌, inl, inr, List, [], ◌∷◌, Bool-cases,
}
use rosa_hyperfleet_kube_app.Base.{ok}
use rosa_hyperfleet_kube_app.Desirectl.ResourceTypes.{
  ResourceInfo, Folding, known_resources, find_kind, resource_type_from_manifest,
}
use rosa_hyperfleet_kube_app.DesireTool.{guess_resource}
use std.Path.{subst}

module _ (to_lower_first : String → String) where
  abbrev IsGuessed : ResourceInfo → Type 0
  IsGuessed r = guess_resource to_lower_first r.kind ≡ r.resource

  abbrev AllGuessed : List ResourceInfo → Type 0
  AllGuessed [] = Unit
  AllGuessed (r ∷ rs) = IsGuessed r × AllGuessed rs

  known_resources-AllGuessed : AllGuessed known_resources
  unfolding guess_resource
  known_resources-AllGuessed = (
    refl,
    (
      refl,
      (
        refl,
        (
          refl,
          (
            refl,
            (refl, (refl, (refl, (refl, (refl, (refl, (refl, (refl, (refl, (refl, tt)))))))))),
          ),
        ),
      ),
    ),
  )

  found-IsGuessed :
      (strings : Folding) (kind : String) (rs : List ResourceInfo) (r : ResourceInfo)
      → AllGuessed rs
      → find_kind strings kind rs ≡ ok r
      → IsGuessed r
  found-IsGuessed strings kind [] r all h = absurd (cc h)
  found-IsGuessed strings kind (r0 ∷ rs) r all h =
      elim (Bool-cases (strings.equal_fold r0.kind kind)) [
        | inl here ↦ let same : r0 ≡ r = cc (rw here at h) in subst IsGuessed same all.0
        | inr there ↦ found-IsGuessed strings kind rs r all.1 (rw there at h)
      ]

  -- For a kind that the command line tool knows, written as in its table, the developers' tool guesses
  -- the resource of that table.
  pub guess_resource-resource_type_from_manifest :
      (strings : Folding) (api_version kind : String) (info : ResourceInfo)
      → resource_type_from_manifest strings api_version kind ≡ ok info
      → info.kind ≡ kind
      → guess_resource to_lower_first kind ≡ info.resource
  unfolding resource_type_from_manifest
  guess_resource-resource_type_from_manifest strings api_version kind info found same =
      ap (guess_resource to_lower_first) (sym same)
      ∙ found-IsGuessed strings kind known_resources info known_resources-AllGuessed found
