-- ===== src/Controllers/StatusWriter/Backed.antt =====
-- The fetchers, the replacers and the creators of the controllers (pkg/controllers/apply_desire,
-- read_desire_manager and read_desire_kubernetes, each at the end of controller.go), which back a
-- status writer with a table.
use rosa_hyperfleet_kube_app.Prelude.{ℕ, String, Bool, true, ◌≡◌, refl, Option, none, some}
use rosa_hyperfleet_kube_app.Base.{GoError, Result, ok, err, Io, error_of}
use rosa_hyperfleet_kube_app.Api.{Desire, get_document_id}
use rosa_hyperfleet_kube_app.Database.Client.{SpecReader, ResourceCrud}
use rosa_hyperfleet_kube_app.Database.Client.Contract.{IsResourceCrud}
use rosa_hyperfleet_kube_app.Controllers.StatusWriter.{Store}
use rosa_hyperfleet_kube_app.Controllers.StatusWriter.Recorded.{IsStatusStore}

-- A pointer, which is nil with an error only.
abbrev pub pointer : {T : Type 0} → Result T → Result (Option T)
pointer (ok d) = ok (some d)
pointer (err e) = err e

module _ {W K T : Type 0} (name : K → String) where
  -- Fetch of the spec fetchers.
  unfoldable pub fetch_spec : SpecReader W T → K → Io W (Result (Option T))
  fetch_spec reader key w = let (r, w') = reader.get (name key) w in (pointer r, w')

  -- Fetch of the status fetchers.
  unfoldable pub fetch_status : ResourceCrud W T → K → Io W (Result (Option T))
  fetch_status crud key w = let (r, w') = crud.get (name key) w in (pointer r, w')

module _ {W T : Type 0} where
  unfoldable pub replace_desire : ResourceCrud W T → T → Io W (Option GoError)
  replace_desire crud d w = let (r, w') = crud.replace d w in (error_of r, w')

  unfoldable pub create_desire : ResourceCrud W T → T → Io W (Option GoError)
  create_desire crud d w = let (r, w') = crud.create d w in (error_of r, w')

module _ {W K T : Type 0} (crud : ResourceCrud W T) (name : K → String) (deep_equal : T → T → Bool)
    (zero_value : T) (clock : W → ℕ) (show_key : K → String) where
  unfoldable pub crud_store : Store W K T
  unfolding fetch_status replace_desire create_desire
  crud_store = record {
    fetch = fetch_status name crud;
    replace = replace_desire crud;
    create = create_desire crud;
    deep_equal = deep_equal;
    zero_value = zero_value;
    clock = clock;
    show_key = show_key;
  }

pointer-some :
    {T : Type 0} (r : Result T) (o : Option T)
    → pointer r ≡ ok o
    → (d : T) × (r ≡ ok d) × (o ≡ some d)
pointer-some (ok d) none h = absurd (cc h)
pointer-some (ok d) (some d') h = (d, refl, cc h)
pointer-some (err e) o h = absurd (cc h)

pointer-err : {T : Type 0} (r : Result T) (e : GoError) → pointer r ≡ err e → r ≡ err e
pointer-err (ok d) e h = absurd (cc h)
pointer-err (err e') e h = cc h

error_of-none : {T : Type 0} (r : Result T) → error_of r ≡ none → (d : T) × (r ≡ ok d)
error_of-none (ok d) h = (d, refl)
error_of-none (err e) h = absurd (cc h)

module _ {W K T C : Type 0} ⦃t : Desire T⦄ (crud : ResourceCrud W T) (name : K → String)
    (deep_equal : T → T → Bool) (zero_value : T) (clock : W → ℕ) (show_key : K → String)
    (content : T → C) (law : IsResourceCrud crud content) where
  -- If the equality of the writer respects a part of a desire that the writes of a table keep, then the
  -- fetcher, the replacer and the creator on that table are what the status writer relies on.
  pub crud_store-IsStatusStore :
      ((a b : T) → deep_equal a b ≡ true → content a ≡ content b)
      → IsStatusStore
          (crud_store crud name deep_equal zero_value clock show_key)
          content
          get_document_id
          name
  unfolding crud_store
  crud_store-IsStatusStore respects = record {
    stored = law.stored;
    fetch-ok = λ key w o h.
        let (d, found, same) = pointer-some (crud.get (name key) w).0 o h in
        rw same (law.get-ok (name key) w d found);
    fetch-not_found = λ key w e h missing.
        law.get-not_found (name key) w e (pointer-err (crud.get (name key) w).0 e h) missing;
    replace-none = λ d w h.
        let (out, done) = error_of-none (crud.replace d w).0 h in law.replace-ok d out w done;
    create-none = λ d w h.
        let (out, done) = error_of-none (crud.create d w).0 h in (law.create-ok d out w done).1;
    deep_equal-content = respects;
  }
