-- ===== src/Desirectl/Commands/Reported.antt =====
-- What it means that the apply command returns no error.
use rosa_hyperfleet_kube_app.Prelude.{
  String, ◌≡◌, refl, inl, inr, ◌≢◌, none, some, List, [], ◌∷◌, ◌++◌, map,
}
use rosa_hyperfleet_kube_app.Base.{GoError, ok, Result-cases}
use rosa_hyperfleet_kube_app.Desirectl.Config.{Config, Context, load_config, resolve_active_context}
use rosa_hyperfleet_kube_app.Desirectl.Desires.{ClientPair, Libraries}
use rosa_hyperfleet_kube_app.Desirectl.Manifests.{Bytes, read_manifest_files}
use rosa_hyperfleet_kube_app.Desirectl.Applying.{
  errors_occurred, apply_document, apply_documents, run_apply,
}
use rosa_hyperfleet_kube_app.Desirectl.Commands.{
  Tool, with_context, with_active, with_documents, new_apply_cmd,
}

append_one_full : (errs : List GoError) (e : GoError) → errs ++ e ∷ [] ≡ [] → ⊥
append_one_full [] e h = cc h
append_one_full (x ∷ errs) e h = cc h

module _ {W J : Type 0} (lib : Libraries J) (clients : ClientPair W) (active : Context) where
  -- Each document is applied without an error, in its turn, from the one world to the other.
  pub data Applied : List String → W → W → Type 0 where
    all_applied : {w : W} → Applied [] w w
    applied :
        {doc : String} {docs : List String} {w w' : W} (line : String × String)
        → (apply_document lib clients active doc w).0 ≡ ok line
        → Applied docs (apply_document lib clients active doc w).1 w'
        → Applied (doc ∷ docs) w w'

  apply_documents-Applied :
      (docs : List String) (printed : List (String × String)) (errs : List GoError) (w : W)
      → (apply_documents lib clients active docs printed errs w).0.1 ≡ []
      → (errs ≡ []) × Applied docs w (apply_documents lib clients active docs printed errs w).1
  unfolding apply_documents
  apply_documents-Applied [] printed errs w h = (h, all_applied)
  apply_documents-Applied (doc ∷ docs) printed errs w h =
      let w' = (apply_document lib clients active doc w).1 in
      elim (Result-cases (apply_document lib clients active doc w).0) [
        | inl (e, failed) ↦
            let (full, rest) =
              apply_documents-Applied docs printed (errs ++ e ∷ []) w'
                (rw (apply_documents, failed) at h) in
            absurd (append_one_full errs e full)
        | inr (line, fine) ↦
            let (none_before, rest) =
              apply_documents-Applied docs (printed ++ line ∷ []) errs w'
                (rw (apply_documents, fine) at h) in
            rw (apply_documents, fine) (none_before, applied line fine rest)
      ]

  no_errors_occurred : (errs : List GoError) → errors_occurred lib errs ≡ none → errs ≡ []
  no_errors_occurred [] h = refl
  no_errors_occurred (e ∷ errs) h = absurd (cc h)

  run_apply-Applied :
      (docs : List String) (w : W)
      → (run_apply lib clients active docs w).0 ≡ none
      → (docs ≢ []) × Applied docs w (run_apply lib clients active docs w).1
  unfolding run_apply
  run_apply-Applied [] w h = absurd (cc h)
  run_apply-Applied (doc ∷ docs) w h = (
    λ empty. cc empty,
    (apply_documents-Applied (doc ∷ docs) [] [] w
        (no_errors_occurred (apply_documents lib clients active (doc ∷ docs) [] [] w).0.1 h)).1,
  )

module _ {W J : Type 0} (tool : Tool W J) where
  with_context-Applied :
      (paths : List String) (active : Context) (w : W)
      → (with_context tool some
          (λ a clients. with_documents tool paths (run_apply tool.lib clients a))
          active
          w).0
        ≡ none
      → (clients : ClientPair W) × (docs : List Bytes) × ((tool.new_clients active w).0
          ≡ ok clients)
        × (read_manifest_files tool.files paths ≡ ok docs)
        × (map tool.text docs ≢ [])
        × Applied tool.lib clients active
            (map tool.text docs)
            (tool.new_clients active w).1
            (with_context tool some
              (λ a clients'. with_documents tool paths (run_apply tool.lib clients' a))
              active
              w).1
  with_context-Applied paths active w h = elim (Result-cases (tool.new_clients active w).0) [
    | inl (e, failed) ↦ absurd (cc (rw (with_context, failed) at h))
    | inr (clients, connected) ↦ elim (Result-cases (read_manifest_files tool.files paths)) [
      | inl (e, failed) ↦ absurd (cc (rw (with_context, with_documents, connected, failed) at h))
      | inr (docs, read) ↦
          let (full, all) =
            run_apply-Applied tool.lib clients active (map tool.text docs)
              (tool.new_clients active w).1
              (rw (with_context, with_documents, connected, read) at h) in
          (
            clients,
            docs,
            connected,
            read,
            full,
            rw (with_context, with_documents, connected, read) all,
          )
    ]
  ]

  -- The configuration was loaded, one of its contexts was active, its clients were made, every file was
  -- read, and there was a document at least; and each of the documents, in order, was applied without an
  -- error, the last one leaving the world as the command does.
  abbrev pub AllApplied : List String → W → Type 0
  AllApplied paths w =
      (cfg : Config) × (active : Context) × (clients : ClientPair W) × (docs : List Bytes)
      × ((load_config tool.config w).0 ≡ ok cfg)
      × (resolve_active_context cfg tool.flag_context ≡ ok active)
      × ((tool.new_clients active (load_config tool.config w).1).0 ≡ ok clients)
      × (read_manifest_files tool.files paths ≡ ok docs)
      × (map tool.text docs ≢ [])
      × Applied tool.lib clients active (map tool.text docs)
          (tool.new_clients active (load_config tool.config w).1).1 (new_apply_cmd tool paths w).1

  -- If the apply command returns no error, then the configuration was loaded, one of its contexts was
  -- active, its clients were made, every file was read, and there was a document at least; and each of the
  -- documents, in order, was applied without an error, the last one leaving the world as the command does.
  pub new_apply_cmd-AllApplied :
      (paths : List String) (w : W) → (new_apply_cmd tool paths w).0 ≡ none → AllApplied paths w
  unfolding new_apply_cmd with_active
  new_apply_cmd-AllApplied [] w h = absurd (cc h)
  new_apply_cmd-AllApplied (path ∷ paths) w h =
      let w' = (load_config tool.config w).1 in
      elim (Result-cases (load_config tool.config w).0) [
        | inl (e, failed) ↦ absurd (cc (rw (new_apply_cmd, with_active, failed) at h))
        | inr (cfg, loaded) ↦ elim (Result-cases (resolve_active_context cfg tool.flag_context)) [
          | inl (e, failed) ↦ absurd (cc (rw (new_apply_cmd, with_active, loaded, failed) at h))
          | inr (active, resolved) ↦
              let (clients, docs, connected, read, full, all) =
                with_context-Applied (path ∷ paths) active w'
                  (rw (new_apply_cmd, with_active, loaded, resolved) at h) in
              (
                cfg,
                active,
                clients,
                docs,
                loaded,
                resolved,
                connected,
                read,
                full,
                rw (new_apply_cmd, with_active, loaded, resolved) all,
              )
        ]
      ]
