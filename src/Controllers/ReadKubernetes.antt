-- ===== src/Controllers/ReadKubernetes.antt =====
-- pkg/controllers/read_desire_kubernetes/controller.go: the controller of one ReadDesire, which copies
-- the object that it names into the status document. Its informer, with a store of that one object,
-- is client-go's, a parameter.
pub mod Mirrored
pub mod Stored
use rosa_hyperfleet_kube_app.Prelude.{
  ℕ, String, Bool, true, false, not, Option, none, some, [], ◌∷◌, if◌then◌else◌, ◌==◌, string_eq,
}
use rosa_hyperfleet_kube_app.Base.{
  GoError, plain, pre_check, wrap, concat, Result, ok, err, Io, is_not_found_error,
}
use rosa_hyperfleet_kube_app.Api.{
  ReadDesire, ReadDesireStatus, DynamoDbMetadata, ResourceReference, RawExtension, Condition,
}
use rosa_hyperfleet_kube_app.Controllers.Conditions.{MetaApi, set_successful}
use rosa_hyperfleet_kube_app.Controllers.StatusWriter.{Store, MutateFunc, update_status}
use rosa_hyperfleet_kube_app.Controllers.Keys.{ReadDesireKey}
use rosa_hyperfleet_kube_app.Controllers.Kube.{is_incomplete, incomplete_target}

-- What the store may hold: an *unstructured.Unstructured, as what json.Marshal makes of it, or a value
-- of another type.
pub data Cached : Type 0 where
  unstructured : Result String → Cached
  other_type : String → Cached

pub record Informer (W : Type 0) : Type 0 where
  pub has_synced : W → Bool
  pub get_by_key : String → W → Result (Option Cached)

pub record Instance : Type 0 where
  pub key : ReadDesireKey
  pub target : ResourceReference
  pub spec_update_time : ℕ
  pub namespaced : Bool

-- What the instances share.
pub record Services (W : Type 0) : Type 0 where
  pub meta : MetaApi
  pub status : Store W ReadDesireKey ReadDesire

-- The checks of the constructor, and the fields that it sets from its arguments.
unfoldable pub new_instance : ReadDesireKey → ResourceReference → ℕ → Result Instance
new_instance key target spec_update_time =
    if is_incomplete target
    then err incomplete_target
    else ok (record {
      key = key;
      target = target;
      spec_update_time = spec_update_time;
      namespaced = if target.namespace == "" then false else true;
    })

-- The bytes of a slice; nil and the empty slice are equal for bytes.Equal.
abbrev pub bytes_of : Option String → String
bytes_of none = ""
bytes_of (some raw) = raw

abbrev pub raw_of : Option RawExtension → String
raw_of none = ""
raw_of (some ext) = ext.raw

abbrev pub extension_of : Option String → Option RawExtension
extension_of none = none
extension_of (some raw) = some (record { raw = raw })

abbrev pub content_of : Option ReadDesire → String
content_of none = ""
content_of (some d) = raw_of d.status.kube_content

module _ {W : Type 0} (s : Services W) (c : Instance) where
  -- d.SetDocumentID(…); d.Status.ObservedDesireUpdateTime = …; SetSuccessful(…)
  abbrev pub observe_read : Option GoError → MutateFunc ReadDesire
  observe_read e now d = record d {
    metadata = record d.metadata { document_id = c.key.name };
    status = record d.status {
      observed_desire_update_time = c.spec_update_time;
      conditions = set_successful s.meta now e d.status.conditions;
    };
  }

  abbrev pub set_content : Option String → ReadDesire → ReadDesire
  set_content new_raw d = record d {
    status = record d.status { kube_content = extension_of new_raw };
  }

  abbrev store_key : String
  store_key =
      if c.namespaced then concat (c.target.namespace ∷ "/" ∷ c.target.name ∷ []) else c.target.name

  abbrev pub mirror : String → Option String → MutateFunc ReadDesire
  mirror existing_raw new_raw now d =
      if bytes_of new_raw == existing_raw
      then observe_read none now d
      else observe_read none now (set_content new_raw d)

  -- The object's JSON, nil if there is none.
  abbrev raw_object : Option Cached → Result (Option String)
  raw_object none = ok none
  raw_object (some (unstructured (ok raw))) = ok (some raw)
  raw_object (some (unstructured (err e))) = err (wrap "marshal observed object" e)
  raw_object (some (other_type name)) =
      err (pre_check (plain (concat ("informer cached unexpected type " ∷ name ∷ []))))

  abbrev cached_object : Result (Option Cached) → Result (Option String)
  cached_object (err e) = err (wrap "read cache" e)
  cached_object (ok o) = raw_object o

  -- The object as it is observed, or the error that is recorded in place of it.
  unfoldable pub observed : Informer W → W → Result (Option String)
  observed informer w = cached_object (informer.get_by_key store_key w)

  -- From the desire that was fetched, nil if there is none, to the update of its status.
  unfoldable pub reflect : Informer W → Option ReadDesire → Io W (Option GoError)
  unfolding observed
  reflect informer desire w = elim (observed informer w) [
    | err e ↦ update_status s.status c.key (observe_read (some e)) w
    | ok new_raw ↦ update_status s.status c.key (mirror (content_of desire) new_raw) w
  ]

  unfoldable pub read_sync_once : Informer W → Io W (Option GoError)
  unfolding reflect
  read_sync_once informer w =
      if not (informer.has_synced w)
      then (none, w)
      else let (r, w') = s.status.fetch c.key w in
        elim r [
          | err e ↦ elim (is_not_found_error (some e)) [
            | true ↦ reflect informer none w'
            | false ↦ (some e, w')
          ]
          | ok desire ↦ reflect informer desire w'
        ]
