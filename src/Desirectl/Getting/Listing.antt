-- ===== src/Desirectl/Getting/Listing.antt =====
-- runGetList of cmd/desirectl/get.go: the resources of the apply desires that match, each with what was
-- observed of it. How they are printed is left out.
use rosa_hyperfleet_kube_app.Prelude.{
  ℕ, String, Bool, ◌&&◌, ◌||◌, Option, none, some, List, [], ◌∷◌, ◌++◌, if◌then◌else◌, ◌==◌,
  string_eq,
}
use rosa_hyperfleet_kube_app.Base.{GoError, wrap, Result, ok, err, Io}
use rosa_hyperfleet_kube_app.Api.{ApplyDesire, ReadDesireStatus, ResourceReference, RawExtension}
use rosa_hyperfleet_kube_app.Desirectl.Config.{Context}
use rosa_hyperfleet_kube_app.Desirectl.ResourceTypes.{ResourceInfo}
use rosa_hyperfleet_kube_app.Desirectl.Desires.{ClientPair, Libraries}
use rosa_hyperfleet_kube_app.Desirectl.Getting.{Clock, observe_resource}

abbrev pub matches : ResourceInfo → String → ApplyDesire → Bool
matches info namespace d =
    (d.spec.target_item.resource == info.resource)
    && ((d.spec.target_item.group == info.group)
        && ((namespace == "") || (d.spec.target_item.namespace == namespace)))

unfoldable pub matching : ResourceInfo → String → List ApplyDesire → List ApplyDesire
matching info namespace [] = []
matching info namespace (d ∷ desires) =
    let rest = matching info namespace desires in
    if matches info namespace d then d ∷ rest else rest

-- The local struct `result`.
pub record Listed : Type 0 where
  pub name : String
  pub namespace : String
  pub content : Option String
  pub error : Option GoError

abbrev raw_content : Option RawExtension → Option String
raw_content none = none
raw_content (some ext) = some ext.raw

abbrev listed_as : ResourceReference → Result ReadDesireStatus → Listed
listed_as ref (err e) = record {
  name = ref.name;
  namespace = ref.namespace;
  content = none;
  error = some e;
}
listed_as ref (ok s) = record {
  name = ref.name;
  namespace = ref.namespace;
  content = raw_content s.kube_content;
  error = none;
}

module _ {W J : Type 0} (lib : Libraries J) (clock : Clock W) (clients : ClientPair W)
    (active : Context) (timeout fuel : ℕ) where
  -- for i, d := range matching; nothing is returned when the fuel of a wait runs out.
  abbrev observe_all : List ApplyDesire → List Listed → Io W (Option (List Listed))
  observe_all [] results w = (some results, w)
  observe_all (d ∷ desires) results w =
      let (r, w') = observe_resource lib clock clients active timeout fuel d.spec.target_item w in
      elim r [
        | none ↦ (none, w')
        | some outcome ↦
            observe_all desires (results ++ listed_as d.spec.target_item outcome ∷ []) w'
      ]

  -- The results, none where no desire matches.
  unfoldable pub run_get_list : ResourceInfo → String → Io W (Option (Result (List Listed)))
  unfolding matching observe_resource
  run_get_list info namespace w =
      let (r, w') = clients.specs_db.apply_desire_specs.list w in
      elim r [
        | err e ↦ (some (err (wrap "listing resources" e)), w')
        | ok desires ↦
            let (results, w'') = observe_all (matching info namespace desires) [] w' in
            (elim results [ none ↦ none | some l ↦ some (ok l) ], w'')
      ]
