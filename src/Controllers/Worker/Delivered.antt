-- ===== src/Controllers/Worker/Delivered.antt =====
-- Events are not lost between the handlers, the work queue and the workers, in any interleaving.
use rosa_hyperfleet_kube_app.Prelude.{
  ℕ, suc, ◌≤◌, ◌≡◌, refl, sym, ap, ◌∙◌, ◌⊎◌, inl, inr, Bool, true, false, Option, none, some, Eq,
  ◌==◌, if◌then◌else◌, arith, Bool-cases,
}
use rosa_hyperfleet_kube_app.Base.{GoError}
use rosa_hyperfleet_kube_app.Controllers.Worker.{WorkQueue, IsWorkQueue, end_work}

-- A key's event is covered by a sync that runs: it has begun after the event.
abbrev RunsSince : Option ℕ → ℕ → Type 0
RunsSince none event = ⊥
RunsSince (some began) event = event ≤ began

abbrev IsLate : Option ℕ → ℕ → ℕ → Type 0
IsLate none synced now = Unit
IsLate (some began) synced now = (synced ≤ began) × (began ≤ now)

-- Of one key: its last event is covered by a successful sync that began after it, or the key waits in
-- the queue, or a sync that began after it runs.
abbrev pub IsCovered : ℕ → ℕ → Option ℕ → Bool → Type 0
IsCovered event synced running waiting =
    (event ≤ synced) ⊎ ((waiting ≡ true) ⊎ RunsSince running event)

record IsTimed (now event synced : ℕ) (running : Option ℕ) (waiting : Bool) : Type 0 where
  event_past : event ≤ now
  synced_past : synced ≤ now
  late : IsLate running synced now
  covered : IsCovered event synced running waiting

module _ (now event synced : ℕ) (running : Option ℕ) (waiting : Bool) where
  IsTimed-event :
      IsTimed now event synced running waiting → IsTimed (suc now) (suc now) synced running true
  IsTimed-event h = ground arith

  IsTimed-tick :
      IsTimed now event synced running waiting → IsTimed (suc now) event synced running waiting
  IsTimed-tick h = ground arith

  IsTimed-begin :
      (waits_again : Bool)
      → IsTimed now event synced running waiting
      → IsTimed now event synced (some now) waits_again
  IsTimed-begin waits_again h = ground arith

  IsTimed-success :
      (began : ℕ)
      → running ≡ some began
      → IsTimed now event synced running waiting
      → IsTimed now event began none waiting
  IsTimed-success began runs h = ground arith

  IsTimed-failure : IsTimed now event synced running waiting → IsTimed now event synced none true
  IsTimed-failure h = ground arith

module _ {Q K : Type 0} ⦃key_eq : Eq K⦄ (q : WorkQueue Q K) where
  -- The time of each key's last event, of the begin of its last successful sync, and of the begin of
  -- the sync that runs; the clock ticks with every event.
  pub record State : Type 0 where
    pub queue : Q
    pub now : ℕ
    pub event_at : K → ℕ
    pub synced_at : K → ℕ
    pub running : K → Option ℕ

  abbrev set_at {ℓ} : {V : Type ℓ} → (K → V) → K → V → K → V
  set_at f key v k = if key == k then v else f k

  abbrev pub start : Q → State
  start queue = record {
    queue = queue;
    now = 0;
    event_at = λ k. 0;
    synced_at = λ k. 0;
    running = λ k. none;
  }

  -- After a sync without an error the key is synced up to the begin of that sync.
  abbrev synced_after : Option GoError → K → ℕ → (K → ℕ) → K → ℕ
  synced_after (some e) key began synced = synced
  synced_after none key began synced = set_at synced key began

  pub data Step : State → State → Type 0 where
    -- a handler, or a ticker, adds the key of a desire
    event :
        (s : State) (key : K)
        → Step s (record s {
          queue = q.add s.queue key;
          now = suc s.now;
          event_at = set_at s.event_at key (suc s.now);
        })
    -- a worker takes a key; the queue hands out none that is being processed
    sync_begins :
        (s : State) (key : K) (queue : Q)
        → q.get s.queue ≡ some (key, queue)
        → s.running key ≡ none
        → Step s (record s { queue = queue; running = set_at s.running key (some s.now) })
    -- and ends its sync, with an error or without
    sync_ends :
        (s : State) (key : K) (began : ℕ) (e : Option GoError)
        → s.running key ≡ some began
        → Step s (record s {
          queue = end_work q e key s.queue;
          synced_at = synced_after e key began s.synced_at;
          running = set_at s.running key none;
        })

  pub data Reach (queue : Q) : State → Type 0 where
    begin : Reach queue (start queue)
    later : {s t : State} → Reach queue s → Step s t → Reach queue t

  module _ (law : IsWorkQueue q) where
    waits-end_work :
        (e : Option GoError) (key k : K) (s : Q)
        → (key == k) ≡ false
        → law.waits (end_work q e key s) k ≡ law.waits s k
    unfolding end_work
    waits-end_work none key k s other = law.waits-done _ key k ∙ law.waits-forget s key k
    waits-end_work (some e) key k s other =
        law.waits-done _ key k ∙ (law.waits-add_rate_limited s key k ∙ rw other refl)

    waits-end_work_failed :
        (e : GoError) (key k : K) (s : Q)
        → (key == k) ≡ true
        → law.waits (end_work q (some e) key s) k ≡ true
    unfolding end_work
    waits-end_work_failed e key k s same =
        law.waits-done _ key k ∙ (law.waits-add_rate_limited s key k ∙ rw same refl)

    waits-end_work_done : (key k : K) (s : Q) → law.waits (end_work q none key s) k ≡ law.waits s k
    unfolding end_work
    waits-end_work_done key k s = law.waits-done _ key k ∙ law.waits-forget s key k

    abbrev AreTimed : State → Type 0
    AreTimed s =
        (k : K) → IsTimed s.now (s.event_at k) (s.synced_at k) (s.running k) (law.waits s.queue k)

    Step-AreTimed : {s t : State} → Step s t → AreTimed s → AreTimed t
    Step-AreTimed (event s key) h k = elim (Bool-cases (key == k)) [
      | inl same ↦ rw (law.waits-add s.queue key k, same) (IsTimed-event s.now _ _ _ _ (h k))
      | inr other ↦ rw (law.waits-add s.queue key k, other) (IsTimed-tick s.now _ _ _ _ (h k))
    ]
    Step-AreTimed (sync_begins s key queue got idle) h k = elim (Bool-cases (key == k)) [
      | inl same ↦ rw same (IsTimed-begin s.now _ _ _ _ (law.waits queue k) (h k))
      | inr other ↦ rw (law.waits-get s.queue queue key k got other, other) (h k)
    ]
    Step-AreTimed (sync_ends s key began none runs) h k = elim (Bool-cases (key == k)) [
      | inl same ↦
          let here : s.running k ≡ some began =
            ap s.running (sym ((key_eq.beq_iff key k).0 same)) ∙ runs in
          rw (waits-end_work_done key k s.queue, same)
            (IsTimed-success s.now _ _ _ _ began here (h k))
      | inr other ↦ rw (waits-end_work none key k s.queue other, other) (h k)
    ]
    Step-AreTimed (sync_ends s key began (some e) runs) h k = elim (Bool-cases (key == k)) [
      | inl same ↦
          rw (waits-end_work_failed e key k s.queue same, same)
            (IsTimed-failure s.now _ _ _ _ (h k))
      | inr other ↦ rw (waits-end_work (some e) key k s.queue other, other) (h k)
    ]

    start-AreTimed : (queue : Q) → AreTimed (start queue)
    start-AreTimed queue k = ground arith

    Reach-AreTimed : {queue : Q} {s : State} → Reach queue s → AreTimed s
    Reach-AreTimed begin = start-AreTimed _
    Reach-AreTimed (later r step) = Step-AreTimed step (Reach-AreTimed r)

    -- Whatever the order in which events come and workers take and end keys, with errors or without, no
    -- event is lost: the last event of each key is covered by a successful sync that began after
    -- it, or by a sync that runs and began after it, or its key waits in the queue. So a key for
    -- which nothing waits and nothing runs has been synced since its last event.
    pub Reach-IsCovered :
        (queue : Q) (s : State)
        → Reach queue s
        → (k : K) → IsCovered (s.event_at k) (s.synced_at k) (s.running k) (law.waits s.queue k)
    Reach-IsCovered queue s r k = (Reach-AreTimed r k).covered
