-- ===== src/Controllers/ReadKubernetes/Mirrored.antt =====
-- What a sync that reports no error leaves in the status document.
use rosa_hyperfleet_kube_app.Prelude.{
  ℕ, String, ◌≡◌, refl, sym, ap, ◌∙◌, inl, inr, true, if◌then◌else◌, List, Option, none, some, ◌==◌,
  string_eq, eq_iff, arith, Bool-cases,
}
use rosa_hyperfleet_kube_app.Base.{ok, err, Result-cases, is_not_found_error}
use rosa_hyperfleet_kube_app.Api.{Condition, ReadDesire, ReadDesireStatus, zero_read_desire}
use rosa_hyperfleet_kube_app.Database.{Json}
use rosa_hyperfleet_kube_app.Controllers.Conditions.{IsMetaApi, find_status_condition}
use rosa_hyperfleet_kube_app.Controllers.Conditions.Outcomes.{status_of, successful_set}
use rosa_hyperfleet_kube_app.Controllers.Keys.{ReadDesireKey}
use rosa_hyperfleet_kube_app.Controllers.StatusWriter.Recorded.{
  IsStatusStore, update_status_records, or_zero,
}
use rosa_hyperfleet_kube_app.Controllers.ReadKubernetes.{
  Services, Instance, Informer, observed, reflect, read_sync_once, mirror, content_of, bytes_of,
  raw_of, extension_of,
}

-- The value of a JSON text, none of the empty text.
abbrev pub json_value : {V : Type 0} → Json V → String → Option V
json_value json raw =
    if raw == "" then none else elim (json.unmarshal raw) [ ok v ↦ some v | err e ↦ none ]

-- What a table keeps of a status: the value of its JSON, which is printed anew, and all else.
abbrev pub read_content : {V : Type 0} → Json V → ReadDesire → Option V × (List Condition × ℕ)
read_content json d = (
  json_value json (raw_of d.status.kube_content),
  (d.status.conditions, d.status.observed_desire_update_time),
)

abbrev pub read_document_name : ReadDesire → String
read_document_name d = d.metadata.document_id

abbrev pub read_key_name : ReadDesireKey → String
read_key_name k = k.name

-- The status of the Successful condition.
abbrev pub read_successful : ReadDesireStatus → String
read_successful s = status_of (find_status_condition "Successful" s.conditions)

raw_of-extension_of : (o : Option String) → raw_of (extension_of o) ≡ bytes_of o
raw_of-extension_of none = refl
raw_of-extension_of (some raw) = refl

module _ {W V : Type 0} (json : Json V) (s : Services W) (c : Instance)
    (meta_law : IsMetaApi s.meta)
    (law : IsStatusStore s.status (read_content json) read_document_name read_key_name) where
  open law use {stored, fetch-ok, fetch-not_found}

  mirror-name :
      (existing : String) (new_raw : Option String) (now : ℕ) (d : ReadDesire)
      → (mirror s c existing new_raw now d).metadata.document_id ≡ c.key.name
  mirror-name existing new_raw now d = ground arith

  mirror-content :
      (new_raw : Option String) (now : ℕ) (d : ReadDesire) (existing : String)
      → existing ≡ raw_of d.status.kube_content
      → raw_of (mirror s c existing new_raw now d).status.kube_content ≡ bytes_of new_raw
  mirror-content new_raw now d existing same = elim (Bool-cases (bytes_of new_raw == existing)) [
    | inl equal ↦ rw equal (sym same ∙ sym ((eq_iff (bytes_of new_raw) existing).0 equal))
    | inr other ↦ rw other (raw_of-extension_of new_raw)
  ]

  mirror-status :
      (existing : String) (new_raw : Option String) (now : ℕ) (d : ReadDesire)
      → (read_successful (mirror s c existing new_raw now d).status ≡ "True")
        × ((mirror s c existing new_raw now d).status.observed_desire_update_time
            ≡ c.spec_update_time)
  mirror-status existing new_raw now d = elim (Bool-cases (bytes_of new_raw == existing)) [
    | inl equal ↦ rw equal (successful_set s.meta meta_law now none d.status.conditions, refl)
    | inr other ↦ rw other (successful_set s.meta meta_law now none d.status.conditions, refl)
  ]

  old_content :
      (o : Option ReadDesire)
      → s.status.zero_value ≡ zero_read_desire
      → content_of o ≡ raw_of (or_zero s.status o).status.kube_content
  old_content none zero = rw zero refl
  old_content (some d) zero = refl

  reflect_mirrors :
      (informer : Informer W) (desire : Option ReadDesire) (new_raw : Option String) (w : W)
      → s.status.zero_value ≡ zero_read_desire
      → stored w c.key.name ≡ desire
      → observed s c informer w ≡ ok new_raw
      → (reflect s c informer desire w).0 ≡ none
      → (d : ReadDesire) × (stored (reflect s c informer desire w).1 c.key.name ≡ some d)
        × (json_value json (raw_of d.status.kube_content) ≡ json_value json (bytes_of new_raw))
        × (read_successful d.status ≡ "True")
        × (d.status.observed_desire_update_time ≡ c.spec_update_time)
  unfolding reflect
  reflect_mirrors informer desire new_raw w zero here seen done =
      let mutate = mirror s c (content_of desire) new_raw in
      let now = s.status.clock (s.status.fetch c.key w).1 in
      let old = or_zero s.status (stored w c.key.name) in
      let (d, found, same) =
        update_status_records s.status (read_content json) read_document_name read_key_name law
          c.key mutate w (mirror-name (content_of desire) new_raw) (rw (reflect, seen) at done) in
      let status = mirror-status (content_of desire) new_raw now old in
      rw (reflect, seen)
        (
          d,
          found,
          ap (λ x. x.0) same
              ∙ ap (json_value json) (
                  mirror-content new_raw now old (content_of desire)
                    (rw here (old_content desire zero))),
          ap (λ x. status_of (find_status_condition "Successful" x.1.0)) same ∙ status.0,
          ap (λ x. x.1.1) same ∙ status.1,
        )

  -- If a sync after the informer has synced reports no error, and the object, or its absence, could be
  -- read, then the status document has the value of the object's JSON, none for an object that is
  -- not there; Successful is True; and the observed update time is the spec's. The status
  -- writer's zero value is Go's, and its table keeps of JSON content the value that it parses to.
  pub read_sync_once_mirrors :
      (informer : Informer W) (new_raw : Option String) (w : W)
      → s.status.zero_value ≡ zero_read_desire
      → informer.has_synced w ≡ true
      → observed s c informer (s.status.fetch c.key w).1 ≡ ok new_raw
      → (read_sync_once s c informer w).0 ≡ none
      → (d : ReadDesire) × (stored (read_sync_once s c informer w).1 c.key.name ≡ some d)
        × (json_value json (raw_of d.status.kube_content) ≡ json_value json (bytes_of new_raw))
        × (read_successful d.status ≡ "True")
        × (d.status.observed_desire_update_time ≡ c.spec_update_time)
  unfolding read_sync_once
  read_sync_once_mirrors informer new_raw w zero synced seen done =
      let w' = (s.status.fetch c.key w).1 in
      elim (Result-cases (s.status.fetch c.key w).0) [
        | inl (e, failed) ↦ elim (Bool-cases (is_not_found_error (some e))) [
          | inl missing ↦
              rw (read_sync_once, synced, failed, missing)
                (reflect_mirrors informer none new_raw w' zero
                  (fetch-not_found c.key w e failed missing).1 seen
                  (rw (read_sync_once, synced, failed, missing) at done))
          | inr broken ↦ absurd (cc (rw (read_sync_once, synced, failed, broken) at done))
        ]
        | inr (desire, found) ↦
            rw (read_sync_once, synced, found)
              (reflect_mirrors informer desire new_raw w' zero (fetch-ok c.key w desire found).1
                seen (rw (read_sync_once, synced, found) at done))
      ]
