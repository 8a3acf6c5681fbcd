-- ===== src/Desirectl/Getting.antt =====
-- cmd/desirectl/get.go: the read desires that the get command asks with, and its wait for their status.
-- How a result is formatted is left out. Times are in milliseconds.
pub mod Awaited
pub mod Served
pub mod Listing
use rosa_hyperfleet_kube_app.Prelude.{
  ℕ, zero, suc, ◌+◌, ◌*◌, String, Bool, true, false, not, ◌&&◌, ◌||◌, Option, none, some, List, [],
  ◌∷◌, ◌++◌, if◌then◌else◌, ◌==◌, leb, ltb, string_eq, nat_eq,
}
use rosa_hyperfleet_kube_app.Base.{
  GoError, plain, wrap, concat, Result, ok, err, Io, is_not_found_error, is_already_exists_error,
}
use rosa_hyperfleet_kube_app.Api.{
  ApplyDesire, ReadDesire, ReadDesireSpec, ReadDesireStatus, DynamoDbMetadata, ResourceReference,
  RawExtension, Condition, zero_read_desire, condition_type_successful,
}
use rosa_hyperfleet_kube_app.Database.Client.{ResourceCrud}
use rosa_hyperfleet_kube_app.Desirectl.Config.{Context}
use rosa_hyperfleet_kube_app.Desirectl.ResourceTypes.{ResourceInfo, resource_ref_from_gvr}
use rosa_hyperfleet_kube_app.Desirectl.Desires.{
  ClientPair, Libraries, format_resource_name, document_of,
}

-- time.Now and time.Sleep.
pub record Clock (W : Type 0) : Type 0 where
  pub now : W → ℕ
  pub sleep : ℕ → W → W

abbrev pub new_read_desire : Context → ResourceReference → String → ReadDesire
new_read_desire active ref doc_id = record zero_read_desire {
  metadata = record zero_read_desire.metadata { document_id = doc_id };
  spec = record {
    management_cluster = active.management_cluster;
    cluster_id = active.cluster_id;
    node_pool_name = active.node_pool;
    target_item = ref;
  };
}

-- The update time of what a Get returns.
abbrev pub update_time_or : String → Result ReadDesire → Result ℕ
update_time_or s (ok d) = ok d.metadata.update_time
update_time_or s (err e) = err (wrap s e)

module _ {W : Type 0} (specs : ResourceCrud W ReadDesire) (active : Context)
    (ref : ResourceReference) (doc_id : String) where
  abbrev refresh : ReadDesire → Io W (Result ℕ)
  refresh existing w =
      let (out, w') = specs.replace existing w in
      elim out [
        | err e ↦ (err (wrap "refreshing read desire" e), w')
        | ok replaced ↦
            let (r, w'') = specs.get doc_id w' in
            (update_time_or "getting updated read desire" r, w'')
      ]

  abbrev create_read : Io W (Result ℕ)
  create_read w =
      let (out, w') = specs.create (new_read_desire active ref doc_id) w in
      elim out [
        | ok created ↦ (ok created.metadata.update_time, w')
        | err e ↦ elim (is_already_exists_error (some e)) [
          | true ↦
              let (r, w'') = specs.get doc_id w' in
              (update_time_or "getting existing read desire" r, w'')
          | false ↦ (err (wrap "creating read desire" e), w')
        ]
      ]

  unfoldable pub ensure_read_desire : Io W (Result ℕ)
  ensure_read_desire w =
      let (r, w') = specs.get doc_id w in
      elim r [
        | ok existing ↦ refresh existing w'
        | err e ↦ elim (is_not_found_error (some e)) [
          | true ↦ create_read w'
          | false ↦ (err (wrap "checking read desire" e), w')
        ]
      ]

-- readStatus.KubeContent == nil || len(readStatus.KubeContent.Raw) == 0, negated
abbrev pub has_content : Option RawExtension → Bool
has_content none = false
has_content (some ext) = not (ext.raw == "")

-- A zero time is 0.
abbrev pub is_fresh : ℕ → ReadDesireStatus → Bool
is_fresh after_time s =
    not (s.observed_desire_update_time == 0) && leb after_time s.observed_desire_update_time

abbrev pub is_failed : Condition → Bool
is_failed c = (c.type == condition_type_successful) && (c.status == "False")

-- The loop over the conditions.
abbrev pub read_result : List Condition → ReadDesireStatus → Result ReadDesireStatus
read_result [] s = ok s
read_result (c ∷ conditions) s =
    if is_failed c
    then err (plain (concat ("read failed: " ∷ c.reason ∷ ": " ∷ c.message ∷ [])))
    else read_result conditions s

-- min(interval*2, maxInterval)
abbrev pub next_interval : ℕ → ℕ
next_interval interval = if leb (interval * 2) 2000 then interval * 2 else 2000

module _ {W : Type 0} (clock : Clock W) (status : ResourceCrud W ReadDesire) (doc_id : String)
    (after_time deadline : ℕ) where
  -- A pass of the loop for each unit of fuel; nothing is returned when it runs out.
  unfoldable pub poll : ℕ → ℕ → Io W (Option (Result ReadDesireStatus))
  poll zero interval w = (none, w)
  poll (suc fuel) interval w =
      let (r, w') = status.get doc_id w in
      let again = poll fuel (next_interval interval) (clock.sleep interval w') in
      let late = ltb deadline (clock.now w') in
      elim r [
        | err e ↦ elim (is_not_found_error (some e)) [
          | true ↦
              if late
              then (some (err (plain "timed out waiting for status (no status document yet)")), w')
              else again
          | false ↦ (some (err (wrap "getting status" e)), w')
        ]
        | ok d ↦
            if is_fresh after_time d.status || has_content d.status.kube_content
            then (some (read_result d.status.conditions d.status), w')
            else if late
            then (some (err (plain "timed out waiting for fresh status")), w')
            else again
      ]

-- The deadline is set when the function is called.
unfoldable pub poll_read_desire_status :
    {W : Type 0}
    → Clock W
    → ResourceCrud W ReadDesire
    → String
    → ℕ
    → ℕ
    → ℕ
    → Io W (Option (Result ReadDesireStatus))
unfolding poll
poll_read_desire_status clock status doc_id after_time timeout fuel w =
    poll clock status doc_id after_time (clock.now w + timeout) fuel 200 w

module _ {W J : Type 0} (lib : Libraries J) (clock : Clock W) (clients : ClientPair W)
    (active : Context) (timeout fuel : ℕ) where
  -- Both steps for a resource; nothing is returned when the fuel runs out.
  unfoldable pub observe_resource : ResourceReference → Io W (Option (Result ReadDesireStatus))
  unfolding ensure_read_desire poll_read_desire_status
  observe_resource ref w =
      let doc_id = document_of lib ref in
      let (r, w') = ensure_read_desire clients.specs_db.read_desire_status active ref doc_id w in
      elim r [
        | err e ↦ (some (err e), w')
        | ok spec_time ↦
            poll_read_desire_status clock clients.status_db.read_desire_status doc_id spec_time
              timeout fuel w'
      ]

  abbrev content_or_error : ResourceInfo → String → Result ReadDesireStatus → Result String
  content_or_error info name (err e) = err e
  content_or_error info name (ok s) = elim s.kube_content [
    | none ↦
        err (plain (concat ("no data returned for " ∷ format_resource_name lib info name ∷ [])))
    | some ext ↦
        if ext.raw == ""
        then err
            (plain (concat ("no data returned for " ∷ format_resource_name lib info name ∷ [])))
        else ok ext.raw
  ]

  abbrev content_after :
      ResourceInfo → String → Option (Result ReadDesireStatus) → Option (Result String)
  content_after info name none = none
  content_after info name (some r) = some (content_or_error info name r)

  -- The content that is printed.
  unfoldable pub run_get_named : ResourceInfo → String → String → Io W (Option (Result String))
  unfolding observe_resource
  run_get_named info name namespace w =
      let (r, w') = observe_resource (resource_ref_from_gvr info namespace name) w in
      (content_after info name r, w')
