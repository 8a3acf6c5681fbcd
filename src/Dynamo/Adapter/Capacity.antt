-- ===== src/Dynamo/Adapter/Capacity.antt =====
-- When the result channel loses events.
use rosa_hyperfleet_kube_app.Prelude.{
  ◌+◌, ◌≤◌, ◌≡◌, refl, sym, ap, ◌∙◌, inl, inr, true, List, [], ◌∷◌, ◌++◌, length, length-append,
  ltb, arith, Bool-cases, Option-cases,
}
use rosa_hyperfleet_kube_app.Dynamo.Watcher.{Event}
use rosa_hyperfleet_kube_app.Dynamo.Adapter.{
  Decoder, WatchEvent, watch_event, send_or_drop, on_change, on_changes, watch_events,
  channel_capacity,
}

append-nil {ℓ} : {A : Type ℓ} (xs : List A) → xs ++ [] ≡ xs
append-nil [] = refl
append-nil (x ∷ xs) = ap (◌∷◌ x) (append-nil xs)

append-cons {ℓ} :
    {A : Type ℓ} (xs : List A) (y : A) (ys : List A) → (xs ++ (y ∷ [])) ++ ys ≡ xs ++ (y ∷ ys)
append-cons [] y ys = refl
append-cons (x ∷ xs) y ys = ap (◌∷◌ x) (append-cons xs y ys)

module _ {O : Type 0} (decoder : Decoder O) where
  -- A round whose events fit into the channel is delivered whole and in order, behind what the
  -- channel held, without the items that do not decode.
  pub on_changes-fits :
      (events : List Event) (channel : List (WatchEvent O))
      → length channel + length (watch_events decoder events) ≤ channel_capacity
      → on_changes decoder events channel ≡ channel ++ watch_events decoder events
  unfolding on_changes on_change send_or_drop
  on_changes-fits [] channel h = sym (append-nil channel)
  on_changes-fits (event ∷ events) channel h = elim (Option-cases (watch_event decoder event)) [
    | inl skipped ↦ rw (on_changes, skipped) (on_changes-fits events channel (rw skipped at h))
    | inr (e, sent) ↦
        let room : ltb (length channel) 100 ≡ true = ground (arith, rw sent at h) in
        rw (on_changes, sent, room)
          (on_changes-fits events (channel ++ (e ∷ []))
              (omega (arith, length-append channel (e ∷ []), rw sent at h))
            ∙ append-cons channel e (watch_events decoder events))
  ]

  -- The channel never holds more than its capacity, whatever the rounds are.
  pub on_changes-bounded :
      (events : List Event) (channel : List (WatchEvent O))
      → length channel ≤ channel_capacity
      → length (on_changes decoder events channel) ≤ channel_capacity
  unfolding on_changes on_change send_or_drop
  on_changes-bounded [] channel h = h
  on_changes-bounded (event ∷ events) channel h = elim (Option-cases (watch_event decoder event)) [
    | inl skipped ↦ rw (on_changes, skipped) (on_changes-bounded events channel h)
    | inr (e, sent) ↦ elim (Bool-cases (ltb (length channel) 100)) [
      | inl room ↦
          rw (on_changes, sent, room)
            (on_changes-bounded events (channel ++ (e ∷ []))
              (ground (arith, length-append channel (e ∷ []), room)))
      | inr full ↦ rw (on_changes, sent, full) (on_changes-bounded events channel h)
    ]
  ]
