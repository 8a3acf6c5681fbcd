-- ===== src/Controllers/ReadManager/Lifecycle.antt =====
-- The goroutines of the manager, over any interleaving of its workers, its event handler and the
-- goroutines themselves.
use rosa_hyperfleet_kube_app.Prelude.{
  ℕ, suc, ◌<◌, ◌≡◌, ◌⊎◌, sym, ap, ◌∙◌, inl, inr, true, false, none, some, List, [], ◌∷◌, IsMap,
  lookup, insert, lookup-insert, lookup-remove, insert-IsMap, remove-IsMap, contains, if◌then◌else◌,
  ◌==◌, nat_eq, nat_beq_iff, arith, Bool-cases, Option-cases, Option, remove,
}
use rosa_hyperfleet_kube_app.Api.{ResourceReference}
use rosa_hyperfleet_kube_app.Controllers.Keys.{ReadDesireKey}
use rosa_hyperfleet_kube_app.Controllers.ReadManager.{
  RunningInstance, ManagerState, no_controllers, key_eq, key_beq_iff, without, take_instance,
  stop_by_key, start_instance,
}

-- Each goroutine stands once.
abbrev pub IsDistinct : List ℕ → Type 0
IsDistinct [] = Unit
IsDistinct (g ∷ gs) = (contains gs g ≡ false) × IsDistinct gs

contains-without :
    (g h : ℕ) (gs : List ℕ) → contains (without g gs) h ≡ (if g == h then false else contains gs h)
unfolding without
contains-without g h [] = ground arith
contains-without g h (i ∷ gs) = ground (arith, contains-without g h gs)

without-IsDistinct : (g : ℕ) (gs : List ℕ) → IsDistinct gs → IsDistinct (without g gs)
unfolding without
without-IsDistinct g [] h = tt
without-IsDistinct g (i ∷ gs) h =
    ground (arith, contains-without g i gs, without-IsDistinct g gs h.1)

-- The manager, with the goroutines that calls of stopByKey have taken out of the map and wait for.
pub record Shared : Type 0 where
  pub manager : ManagerState
  pub stopping : List ℕ

-- The live goroutines are distinct and belong each to an entry of the map or to a stopByKey that waits for
-- it; no goroutine belongs to two keys, or to a key and a stopByKey; and the next number is new.
pub record IsManaged (x : Shared) : Type 0 where
  pub map_law : IsMap x.manager.running
  pub distinct : IsDistinct x.manager.live
  pub owned :
      (g : ℕ)
      → contains x.manager.live g ≡ true
      → ((key : ReadDesireKey) × (inst : RunningInstance) × (lookup key x.manager.running
            ≡ some inst)
          × (inst.goroutine ≡ g))
        ⊎ (contains x.stopping g ≡ true)
  pub numbered :
      (key : ReadDesireKey) (inst : RunningInstance)
      → lookup key x.manager.running ≡ some inst
      → inst.goroutine < x.manager.next
  pub stopping_numbered : (g : ℕ) → contains x.stopping g ≡ true → g < x.manager.next
  pub apart :
      (k j : ReadDesireKey) (a b : RunningInstance)
      → lookup k x.manager.running ≡ some a
      → lookup j x.manager.running ≡ some b
      → a.goroutine ≡ b.goroutine
      → k ≡ j
  pub stopping_apart :
      (k : ReadDesireKey) (a : RunningInstance)
      → lookup k x.manager.running ≡ some a
      → contains x.stopping a.goroutine ≡ false

-- What a stopByKey waits for.
abbrev pub held : Option RunningInstance → List ℕ → List ℕ
held none stopping = stopping
held (some cur) stopping = cur.goroutine ∷ stopping

unfoldable pub take : ReadDesireKey → Shared → Shared
unfolding take_instance
take key x =
    let (cur, s) = take_instance key x.manager in
    record { manager = s; stopping = held cur x.stopping }

-- A worker, the event handler or the end of the manager takes a key's controller out of the map, and then
-- waits until its goroutine, which it has told to stop, has ended; a controller is started, by the
-- worker that has the key, which saw that none was running; or a goroutine ends, told or not.
pub data Step (x : Shared) : Shared → Type 0 where
  taken : (key : ReadDesireKey) → Step x (take key x)
  waited :
      (g : ℕ)
      → contains x.manager.live g ≡ false
      → Step x (record x { stopping = without g x.stopping })
  started :
      (key : ReadDesireKey) (target : ResourceReference)
      → lookup key x.manager.running ≡ none
      → Step x (record x { manager = start_instance key target x.manager })
  ended :
      (g : ℕ) → Step x (record x { manager = record x.manager { live = without g x.manager.live } })

abbrev pub shared_start : Shared
shared_start = record { manager = no_controllers; stopping = [] }

pub data Reach : Shared → Type 0 where
  begin : Reach shared_start
  later : (x x' : Shared) → Reach x → Step x x' → Reach x'

no_controllers-IsManaged : IsManaged shared_start
unfolding lookup
no_controllers-IsManaged = record {
  map_law = tt;
  distinct = tt;
  owned = λ g h. absurd (cc h);
  numbered = λ key inst h. absurd (cc h);
  stopping_numbered = λ g h. absurd (cc h);
  apart = λ k j a b h. absurd (cc h);
  stopping_apart = λ k a h. absurd (cc h);
}

pub ended-IsManaged :
    (g : ℕ) (x : Shared)
    → IsManaged x
    → IsManaged (record x { manager = record x.manager { live = without g x.manager.live } })
ended-IsManaged g x m = record {
  map_law = m.map_law;
  distinct = without-IsDistinct g x.manager.live m.distinct;
  owned = λ h here. m.owned h (ground (arith, contains-without g h x.manager.live, here));
  numbered = m.numbered;
  stopping_numbered = m.stopping_numbered;
  apart = m.apart;
  stopping_apart = m.stopping_apart;
}

pub waited-IsManaged :
    (g : ℕ) (x : Shared)
    → contains x.manager.live g ≡ false
    → IsManaged x
    → IsManaged (record x { stopping = without g x.stopping })
waited-IsManaged g x dead m = record {
  map_law = m.map_law;
  distinct = m.distinct;
  owned = λ h live. elim (m.owned h live) [
    | inl entry ↦ inl entry
    | inr held_h ↦ elim (Bool-cases (g == h)) [
      | inl same ↦ absurd (cc (dead, ap (contains x.manager.live) ((nat_beq_iff g h).0 same), live))
      | inr other ↦ inr (contains-without g h x.stopping ∙ rw other held_h)
    ]
  ];
  numbered = m.numbered;
  stopping_numbered =
      λ h here. m.stopping_numbered h (ground (arith, contains-without g h x.stopping, here));
  apart = m.apart;
  stopping_apart = λ k a found.
      contains-without g a.goroutine x.stopping ∙ ground (arith, m.stopping_apart k a found);
}

module _ (key : ReadDesireKey) (cur : RunningInstance) (x : Shared)
    (here : lookup key x.manager.running ≡ some cur) (m : IsManaged x) where
  abbrev rest : Shared
  rest = record {
    manager = record x.manager { running = remove key x.manager.running };
    stopping = cur.goroutine ∷ x.stopping;
  }

  kept :
      (k : ReadDesireKey) (inst : RunningInstance)
      → lookup k rest.manager.running ≡ some inst
      → lookup k x.manager.running ≡ some inst
  kept k inst h = ground (arith, lookup-remove key k x.manager.running, h)

  still_owned :
      (g : ℕ)
      → contains x.manager.live g ≡ true
      → ((k : ReadDesireKey) × (inst : RunningInstance) × (lookup k rest.manager.running
            ≡ some inst)
          × (inst.goroutine ≡ g))
        ⊎ (contains rest.stopping g ≡ true)
  still_owned g live = elim (m.owned g live) [
    | inr waits ↦ inr (ground (arith, waits))
    | inl (k, inst, found, same) ↦ elim (Bool-cases (key == k)) [
      | inl equal ↦
          let at_key = (key_beq_iff key k).0 equal in
          let stop : cur ≡ inst =
            cc (sym here, ap (λ y. lookup y x.manager.running) at_key, found) in
          inr (ground (arith, same, ap (λ (i : RunningInstance). i.goroutine) stop))
      | inr other ↦ inl (k, inst, rw (lookup-remove key k x.manager.running, other) found, same)
    ]
  ]

  still_numbered : (g : ℕ) → contains rest.stopping g ≡ true → g < x.manager.next
  still_numbered g waits = elim (Bool-cases (cur.goroutine == g)) [
    | inl same ↦ omega (arith, m.numbered key cur here, (nat_beq_iff cur.goroutine g).0 same)
    | inr other ↦ m.stopping_numbered g (ground (arith, other, waits))
  ]

  now_apart_stopping :
      (k : ReadDesireKey) (a : RunningInstance)
      → lookup k rest.manager.running ≡ some a
      → contains rest.stopping a.goroutine ≡ false
  now_apart_stopping k a found = elim (Bool-cases (cur.goroutine == a.goroutine)) [
    | inl same ↦
        let one_key =
          m.apart key k cur a here (kept k a found)
            ((nat_beq_iff cur.goroutine a.goroutine).0 same) in
        absurd (
          ground
            (arith, lookup-remove key k x.manager.running, found, (key_beq_iff key k).1 one_key))
    | inr other ↦ ground (arith, other, m.stopping_apart k a (kept k a found))
  ]

  taken-IsManaged : IsManaged rest
  taken-IsManaged = record {
    map_law = remove-IsMap key x.manager.running m.map_law;
    distinct = m.distinct;
    owned = still_owned;
    numbered = λ k inst h. m.numbered k inst (kept k inst h);
    stopping_numbered = still_numbered;
    apart = λ k j a b h i. m.apart k j a b (kept k a h) (kept j b i);
    stopping_apart = now_apart_stopping;
  }

pub take-IsManaged : (key : ReadDesireKey) (x : Shared) → IsManaged x → IsManaged (take key x)
unfolding take
take-IsManaged key x m = elim (Option-cases (lookup key x.manager.running)) [
  | inl absent ↦ rw absent m
  | inr (cur, here) ↦ rw here (taken-IsManaged key cur x here m)
]

module _ (key : ReadDesireKey) (target : ResourceReference) (x : Shared)
    (absent : lookup key x.manager.running ≡ none) (m : IsManaged x) where
  abbrev s : ManagerState
  s = x.manager

  abbrev fresh : RunningInstance
  fresh = record { target = target; goroutine = s.next }

  new_lookup :
      (k : ReadDesireKey)
      → lookup k (insert key fresh s.running)
        ≡ (if key == k then some fresh else lookup k s.running)
  new_lookup k = lookup-insert key k fresh s.running

  not_live : (g : ℕ) → contains s.live g ≡ true → g < s.next
  not_live g live = elim (m.owned g live) [
    | inl (k, inst, found, same) ↦ omega (arith, m.numbered k inst found, same)
    | inr waits ↦ m.stopping_numbered g waits
  ]

  now_owned :
      (g : ℕ)
      → contains (s.next ∷ s.live) g ≡ true
      → ((k : ReadDesireKey) × (inst : RunningInstance) × (lookup k (insert key fresh s.running)
            ≡ some inst)
          × (inst.goroutine ≡ g))
        ⊎ (contains x.stopping g ≡ true)
  now_owned g live = elim (Bool-cases (s.next == g)) [
    | inl new ↦ inl (
      key,
      fresh,
      ground (arith, new_lookup key, key_beq_iff key key),
      (nat_beq_iff s.next g).0 new,
    )
    | inr old ↦ elim (m.owned g (ground (arith, old, live))) [
      | inl (k, inst, found, same) ↦
          inl (k, inst, ground (arith, new_lookup k, key_beq_iff key k, found, absent), same)
      | inr waits ↦ inr waits
    ]
  ]

  not_waiting : contains x.stopping s.next ≡ false
  not_waiting = elim (Bool-cases (contains x.stopping s.next)) [
    | inl waits ↦ absurd (omega (arith, m.stopping_numbered s.next waits))
    | inr free ↦ free
  ]

  entry :
      (k : ReadDesireKey) (inst : RunningInstance)
      → lookup k (insert key fresh s.running) ≡ some inst
      → ((key ≡ k) × (inst.goroutine ≡ s.next)) ⊎ (lookup k s.running ≡ some inst)
  entry k inst found = elim (Bool-cases (key == k)) [
    | inl new ↦
        let same : fresh ≡ inst = cc (rw (new_lookup k, new) at found) in
        inl ((key_beq_iff key k).0 new, sym (ap (λ (i : RunningInstance). i.goroutine) same))
    | inr old ↦ inr (rw (new_lookup k, old) at found)
  ]

  now_numbered :
      (k : ReadDesireKey) (inst : RunningInstance)
      → lookup k (insert key fresh s.running) ≡ some inst
      → inst.goroutine < suc s.next
  now_numbered k inst found = elim (entry k inst found) [
    | inl (new, same) ↦ omega (arith, same)
    | inr old ↦ omega (arith, m.numbered k inst old)
  ]

  now_apart :
      (k j : ReadDesireKey) (a b : RunningInstance)
      → lookup k (insert key fresh s.running) ≡ some a
      → lookup j (insert key fresh s.running) ≡ some b
      → a.goroutine ≡ b.goroutine
      → k ≡ j
  now_apart k j a b h i same = elim (entry k a h) [
    | inl (new, first) ↦ elim (entry j b i) [
      | inl (new', second) ↦ sym new ∙ new'
      | inr old ↦ absurd (omega (arith, m.numbered j b old, first, same))
    ]
    | inr old ↦ elim (entry j b i) [
      | inl (new, second) ↦ absurd (omega (arith, m.numbered k a old, second, same))
      | inr old' ↦ m.apart k j a b old old' same
    ]
  ]

  now_stopping_apart :
      (k : ReadDesireKey) (a : RunningInstance)
      → lookup k (insert key fresh s.running) ≡ some a
      → contains x.stopping a.goroutine ≡ false
  now_stopping_apart k a found = elim (entry k a found) [
    | inl (new, same) ↦ rw same not_waiting
    | inr old ↦ m.stopping_apart k a old
  ]

  started-IsManaged : IsManaged (record x { manager = start_instance key target x.manager })
  unfolding start_instance
  started-IsManaged = record {
    map_law = insert-IsMap key fresh s.running m.map_law;
    distinct = (
      elim (Bool-cases (contains s.live s.next)) [
        | inl live ↦ absurd (omega (arith, not_live s.next live))
        | inr free ↦ free
      ],
      m.distinct,
    );
    owned = now_owned;
    numbered = now_numbered;
    stopping_numbered = λ g waits. omega (arith, m.stopping_numbered g waits);
    apart = now_apart;
    stopping_apart = now_stopping_apart;
  }

-- Whatever the interleaving of the workers, the event handler, their calls of stopByKey and the
-- goroutines, from the start of the manager: the map has each key once; the goroutines that have not
-- ended are distinct, and each belongs to a controller in the map, or is one that a stopByKey has taken
-- out of the map and still waits for, but not to both; and no two keys share one. So a key has at
-- most one goroutine that no stopByKey is ending, and none is ever lost.
pub Reach-IsManaged : (x : Shared) → Reach x → IsManaged x
Reach-IsManaged _ begin = no_controllers-IsManaged
Reach-IsManaged _ (later x0 _ r (taken key)) = take-IsManaged key x0 (Reach-IsManaged x0 r)
Reach-IsManaged _ (later x0 _ r (waited g dead)) = waited-IsManaged g x0 dead (Reach-IsManaged x0 r)
Reach-IsManaged _ (later x0 _ r (started key target absent)) =
    started-IsManaged key target x0 absent (Reach-IsManaged x0 r)
Reach-IsManaged _ (later x0 _ r (ended g)) = ended-IsManaged g x0 (Reach-IsManaged x0 r)

-- A stopByKey that nothing interrupts is three of these steps.
pub stop_by_key-Reach :
    (key : ReadDesireKey) (x : Shared)
    → Reach x
    → (stopping : List ℕ) × Reach
        (record { manager = stop_by_key key x.manager; stopping = stopping })
unfolding stop_by_key take
stop_by_key-Reach key x r = elim (Option-cases (lookup key x.manager.running)) [
  | inl absent ↦ (x.stopping, rw (stop_by_key, absent) r)
  | inr (cur, here) ↦
      let g = cur.goroutine in
      let held_now : Reach (rest key cur x here (Reach-IsManaged x r)) =
        rw (take, here) at (later x (take key x) r (taken key)) in
      (
        without g (g ∷ x.stopping),
        rw (stop_by_key, here)
            (later _ _ (later _ _ held_now (ended g))
              (waited g (contains-without g g x.manager.live ∙ ground arith))),
      )
]

without_self : (g : ℕ) → without g (g ∷ []) ≡ []
unfolding without
without_self g = ground arith

-- While nothing else steps and no stopByKey waits, a stopByKey keeps what holds of the manager.
pub stop_by_key-IsManaged :
    (key : ReadDesireKey) (s : ManagerState)
    → IsManaged (record { manager = s; stopping = [] })
    → IsManaged (record { manager = stop_by_key key s; stopping = [] })
unfolding stop_by_key
stop_by_key-IsManaged key s m = elim (Option-cases (lookup key s.running)) [
  | inl absent ↦ rw (stop_by_key, absent) m
  | inr (cur, here) ↦
      let g = cur.goroutine in
      let x : Shared = record { manager = s; stopping = [] } in
      let after = ended-IsManaged g _ (taken-IsManaged key cur x here m) in
      let over = waited-IsManaged g _ (contains-without g g s.live ∙ ground arith) after in
      rw (stop_by_key, here) (rw (without_self g) at over)
]
