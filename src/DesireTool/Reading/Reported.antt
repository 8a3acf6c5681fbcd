-- ===== src/DesireTool/Reading/Reported.antt =====
-- When the get commands of the developers' tool fail.
use rosa_hyperfleet_kube_app.Prelude.{
  String, ◌≡◌, refl, Bool, true, false, ◌&&◌, ◌||◌, Option, none, some, List, inl, inr, Bool-cases,
}
use rosa_hyperfleet_kube_app.Base.{
  GoError, Result, ok, err, Io, Result-cases, error_of, is_not_found_error,
}
use rosa_hyperfleet_kube_app.Database.Client.{KubeApplierDb}
use rosa_hyperfleet_kube_app.DesireTool.Reading.{
  Texts, read_both, status_output, get_apply, get_delete, get_read,
}

abbrev pub is_nil : Option GoError → Bool
is_nil none = true
is_nil (some e) = false

-- What the commands ask of the two reads: a spec, and a status or ErrNotFound.
abbrev pub answers : {T U : Type 0} → Result T → Result U → Bool
answers spec status =
    is_nil (error_of spec) && (is_nil (error_of status) || is_not_found_error (error_of status))

module _ (texts : Texts) where
  status_output-succeeds :
      {T : Type 0} (s : String) (print : T → List String) (r : Result T) (lines : List String)
      → is_nil (status_output texts s print r lines).1
        ≡ (is_nil (error_of r) || is_not_found_error (error_of r))
  status_output-succeeds s print (ok d) lines = refl
  status_output-succeeds s print (err e) lines = elim (Bool-cases (is_not_found_error (some e))) [
    | inl missing ↦ rw missing refl
    | inr other ↦ rw other refl
  ]

  read_both-succeeds :
      {W T : Type 0} (spec_error status_error : String) (print_spec print_status : T → List String)
      (get_spec get_status : Io W (Result T)) (w : W)
      → is_nil
          (read_both texts spec_error status_error print_spec print_status get_spec get_status
            w).0.1
        ≡ answers (get_spec w).0 (get_status (get_spec w).1).0
  read_both-succeeds spec_error status_error print_spec print_status get_spec get_status w =
      elim (Result-cases (get_spec w).0) [
        | inl (e, failed) ↦ rw (read_both, failed) refl
        | inr (d, read) ↦
            rw (read_both, read)
              (status_output-succeeds status_error print_status (get_status (get_spec w).1).0
                (print_spec d))
      ]

  -- Each of the three get commands succeeds exactly when the spec is read and the status is read or
  -- there is none yet; a status that does not exist is no error, a missing spec is one.
  pub get_commands-succeed :
      {W : Type 0} (specs_db status_db : KubeApplierDb W) (doc_id : String) (w : W)
      → let apply = specs_db.apply_desire_specs.get doc_id w in
        let read = specs_db.read_desire_specs.get doc_id w in
        (is_nil (get_apply texts specs_db status_db doc_id w).0.1
          ≡ answers apply.0 (status_db.apply_desire_status.get doc_id apply.1).0)
        × (is_nil (get_delete texts specs_db status_db doc_id w).0.1
            ≡ answers apply.0 (status_db.apply_desire_status.get doc_id apply.1).0)
        × (is_nil (get_read texts specs_db status_db doc_id w).0.1
            ≡ answers read.0 (status_db.read_desire_status.get doc_id read.1).0)
  unfolding get_apply get_delete get_read
  get_commands-succeed specs_db status_db doc_id w = (
    read_both-succeeds _ _ _ _ (specs_db.apply_desire_specs.get doc_id)
        (status_db.apply_desire_status.get doc_id) w,
    read_both-succeeds _ _ _ _ (specs_db.apply_desire_specs.get doc_id)
        (status_db.apply_desire_status.get doc_id) w,
    read_both-succeeds _ _ _ _ (specs_db.read_desire_specs.get doc_id)
        (status_db.read_desire_status.get doc_id) w,
  )
