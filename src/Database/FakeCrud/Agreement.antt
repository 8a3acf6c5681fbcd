-- ===== src/Database/FakeCrud/Agreement.antt =====
-- What the CRUD in memory promises, in the words of the table's specification.
use rosa_hyperfleet_kube_app.Prelude.{
  ℕ, ◌+◌, ◌%◌, ◌^◌, ◌≢◌, inl, inr, Bool-cases, nat_beq_iff, String, ◌≡◌, refl, ap, ◌∙◌, true, false,
  some, lookup, insert, lookup-insert, ◌==◌, string_eq, nat_eq, arith, eq_refl,
}
use rosa_hyperfleet_kube_app.Base.{precondition_failed, ok, err}
use rosa_hyperfleet_kube_app.Api.{Desire, get_document_id, get_version}
use rosa_hyperfleet_kube_app.Database.FakeCrud.{FakeCrud, fake_get, fake_replace, fake_replaced}

version_moves : (v : ℕ) → v ≢ (v + 1) % 2 ^ 64
version_moves v e = omega (arith, e)

version_stale : (v : ℕ) → (v == (v + 1) % 2 ^ 64) ≡ false
version_stale v = elim (Bool-cases (v == (v + 1) % 2 ^ 64)) [
  | inl same ↦ absurd (version_moves v ((nat_beq_iff v _).0 same))
  | inr moved ↦ moved
]

module _ {T : Type 0} ⦃t : Desire T⦄ (obj stored : T) (f : FakeCrud T) where
  abbrev id : String
  id = get_document_id obj

  abbrev new : T
  new = fake_replaced (f.seq + 1) stored obj

  abbrev written : T → FakeCrud T
  written d = record { store = insert id d f.store; seq = f.seq + 1 }

  first_replace :
      lookup id f.store ≡ some stored
      → get_version obj ≡ get_version stored
      → fake_replace obj f ≡ (ok new, written new)
  unfolding fake_replace
  first_replace here same =
      let fresh : (get_version obj == get_version stored) ≡ true = ground (arith, same) in
      rw (fake_replace, here, fresh) refl

  here_after : (d : T) → lookup id (insert id d f.store) ≡ some d
  here_after d = lookup-insert id id d f.store ∙ rw (eq_refl id) refl

  fake_get_inserted : (d : T) → fake_get id (written d) ≡ ok d
  unfolding fake_get
  fake_get_inserted d = rw (fake_get, here_after d) refl

  stale_replace :
      (d : T)
      → t.metadata d ≡ record (t.metadata obj) {
        version = (get_version stored + 1) % 2 ^ 64;
        update_time = f.seq + 1;
        create_time = (t.metadata stored).create_time;
      }
      → get_version obj ≡ get_version stored
      → fake_replace obj (written d) ≡ (err precondition_failed, written d)
  unfolding fake_replace
  stale_replace d m same =
      let moved : get_version d ≡ (get_version stored + 1) % 2 ^ 64 = ap (λ x. x.version) m in
      let stale : (get_version obj == get_version d) ≡ false =
        rw (moved, same) (version_stale (get_version stored)) in
      rw (fake_replace, here_after d, stale) refl

  -- A Replace of a stored desire whose version is the stored one is what Get then returns, with the
  -- next version, and a second Replace with the old version is refused and changes nothing.
  fake_replace-fake_replace :
      lookup (get_document_id obj) f.store ≡ some stored
      → get_version obj ≡ get_version stored
      → (fake_get (get_document_id obj) (fake_replace obj f).1
          ≡ ok (fake_replaced (f.seq + 1) stored obj))
        × (fake_replace obj (fake_replace obj f).1
            ≡ (err precondition_failed, (fake_replace obj f).1))
  fake_replace-fake_replace here same =
      let first = first_replace here same in
      (
        rw first (fake_get_inserted new),
        rw first (stale_replace new (t.metadata-set_metadata obj _) same),
      )
