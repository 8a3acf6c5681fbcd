-- ===== src/Dynamo/Adapter.antt =====
-- seaplane-dynamo/dynamodb/watch_adapter.go: what OnChange puts on the result channel.
pub mod Capacity
pub mod Lifecycle
use rosa_hyperfleet_kube_app.Prelude.{
  ℕ, suc, ◌+◌, ◌≤◌, ◌<◌, String, ◌≡◌, refl, ◌⊎◌, inl, inr, Bool, true, false, Option, none, some,
  List, [], ◌∷◌, ◌++◌, length, length-append, if◌then◌else◌, ltb, arith, Bool-cases,
}
use rosa_hyperfleet_kube_app.Base.{Result, ok, err, Result-cases}
use rosa_hyperfleet_kube_app.Dynamo.Client.{Item, member_s}
use rosa_hyperfleet_kube_app.Dynamo.Watcher.{Event}

-- decodeFn, and the object that only has a name.
pub record Decoder (O : Type 0) : Type 0 where
  pub decode : Item → Result O
  pub partial_object_metadata : String → O

pub data WatchEvent (O : Type 0) : Type 0 where
  deleted : O → WatchEvent O
  modified : O → WatchEvent O

abbrev pub channel_capacity : ℕ
channel_capacity = 100

module _ {O : Type 0} (decoder : Decoder O) where
  abbrev decoded_or_named : String → Result O → O
  decoded_or_named document_id (ok obj) = obj
  decoded_or_named document_id (err e) = decoder.partial_object_metadata document_id

  unfoldable pub tombstone_object : String → O
  tombstone_object document_id =
      decoded_or_named document_id (decoder.decode (("documentID", member_s document_id) ∷ []))

  abbrev modified_event : Result O → Option (WatchEvent O)
  modified_event (ok obj) = some (modified obj)
  modified_event (err e) = none

  -- An item that does not decode is skipped.
  unfoldable pub watch_event : Event → Option (WatchEvent O)
  unfolding tombstone_object
  watch_event (document_id, none) = some (deleted (tombstone_object document_id))
  watch_event (document_id, some item) = modified_event (decoder.decode item)

  -- select { case resultCh <- event: default: } on the events that the channel holds.
  unfoldable pub send_or_drop : List (WatchEvent O) → Option (WatchEvent O) → List (WatchEvent O)
  send_or_drop channel none = channel
  send_or_drop channel (some event) =
      if ltb (length channel) channel_capacity then channel ++ (event ∷ []) else channel

  unfoldable pub on_change : Event → List (WatchEvent O) → List (WatchEvent O)
  unfolding watch_event send_or_drop
  on_change event channel = send_or_drop channel (watch_event event)

  -- The events of a round, with no receiver between them.
  unfoldable pub on_changes : List Event → List (WatchEvent O) → List (WatchEvent O)
  unfolding on_change
  on_changes [] channel = channel
  on_changes (event ∷ events) channel = on_changes events (on_change event channel)

  abbrev or_skipped : Option (WatchEvent O) → List (WatchEvent O) → List (WatchEvent O)
  or_skipped none rest = rest
  or_skipped (some event) rest = event ∷ rest

  -- The events of a round that decode.
  abbrev pub watch_events : List Event → List (WatchEvent O)
  watch_events [] = []
  watch_events (event ∷ events) = or_skipped (watch_event event) (watch_events events)
