-- ===== src/Controllers/Cooldown.antt =====
-- internal/controllerutils/cooldown.go: the gate between two reconciles of an unchanged desire.
use rosa_hyperfleet_kube_app.Prelude.{
  ℕ, ◌+◌, ◌≡◌, ◌∙◌, Bool, true, false, Option, none, some, if◌then◌else◌, ltb, arith,
}

-- lru.Cache of k8s.io/utils, at the keys K and with times as values; `Get` moves its key to the
-- front.
pub record Lru (K L : Type 0) : Type 0 where
  pub get : K → L → Option ℕ × L
  pub add : K → ℕ → L → L

-- A key that was just added is found, with the value that it was added with.
pub record IsLru {K L : Type 0} (lru : Lru K L) : Type 0 where
  pub get-add : (k : K) (t : ℕ) (l : L) → (lru.get k (lru.add k t l)).0 ≡ some t
  pub get-get : (k : K) (l : L) → (lru.get k (lru.get k l).1).0 ≡ (lru.get k l).0

module _ {K L : Type 0} (lru : Lru K L) (cooldown_duration : ℕ) where
  -- `!ok || now.After(nextExecTime)`
  abbrev is_due : ℕ → Option ℕ → Bool
  is_due now none = true
  is_due now (some next) = ltb next now

  -- CanSync at a time of the clock.
  unfoldable pub can_sync : ℕ → K → L → Bool × L
  can_sync now k l =
      let (next_exec_time, l') = lru.get k l in
      if is_due now next_exec_time
      then (true, lru.add k (now + cooldown_duration) l')
      else (false, l')

  can_sync_at :
      (later t : ℕ) (k : K) (l : L)
      → (lru.get k l).0 ≡ some t
      → ((can_sync later k l).0 ≡ ltb t later)
        × ((can_sync later k l).0 ≡ false → (can_sync later k l).1 ≡ (lru.get k l).1)
  unfolding can_sync
  can_sync_at later t k l found =
      (rw (can_sync, found) (ground arith), rw (can_sync, found) (ground arith))

  can_sync_allowed :
      (now : ℕ) (k : K) (l : L)
      → (can_sync now k l).0 ≡ true
      → (can_sync now k l).1 ≡ lru.add k (now + cooldown_duration) (lru.get k l).1
  unfolding can_sync
  can_sync_allowed now k l allowed = ground arith

  -- After a call that allowed a key, the next call for it allows it exactly when more than the
  -- cooldown has passed; a call that refuses does not move that time.
  pub can_sync_again :
      (now later latest : ℕ) (k : K) (l : L)
      → IsLru lru
      → (can_sync now k l).0 ≡ true
      → ((can_sync later k (can_sync now k l).1).0 ≡ ltb (now + cooldown_duration) later)
        × ((can_sync later k (can_sync now k l).1).0 ≡ false
            → (can_sync latest k (can_sync later k (can_sync now k l).1).1).0
              ≡ ltb (now + cooldown_duration) latest)
  can_sync_again now later latest k l law allowed =
      let t = now + cooldown_duration in
      let l1 = (can_sync now k l).1 in
      let kept : (lru.get k l1).0 ≡ some t =
        rw (can_sync_allowed now k l allowed) (law.get-add k t (lru.get k l).1) in
      let first = can_sync_at later t k l1 kept in
      (
        first.0,
        λ refused.
            (can_sync_at latest t k (can_sync later k l1).1
              (rw (first.1 refused) (law.get-get k l1 ∙ kept))).0,
      )
