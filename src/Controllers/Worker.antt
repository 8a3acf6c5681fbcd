-- ===== src/Controllers/Worker.antt =====
-- processNext, which the three controllers share in form: a key is taken from the work queue, synced, and
-- forgotten or put back. The work queue is client-go's, a parameter.
pub mod Delivered
use rosa_hyperfleet_kube_app.Prelude.{
  String, ◌≡◌, Bool, true, false, ◌||◌, Option, none, some, Eq, ◌==◌, if◌then◌else◌,
}
use rosa_hyperfleet_kube_app.Base.{GoError, Io}

-- workqueue.TypedRateLimitingInterface
pub record WorkQueue (Q K : Type 0) : Type 0 where
  pub add : Q → K → Q
  -- nothing when the queue is shut down; Get waits while it is empty
  pub get : Q → Option (K × Q)
  pub done : Q → K → Q
  pub add_rate_limited : Q → K → Q
  pub forget : Q → K → Q

-- What its documentation promises. A key waits if Get will return it by and by: it is queued, it was
-- added while it is processed, or it is delayed. A key that Get hands out may wait again.
pub record IsWorkQueue {Q K : Type 0} ⦃key_eq : Eq K⦄ (q : WorkQueue Q K) : Type 0 where
  pub waits : Q → K → Bool
  pub waits-add : (s : Q) (key k : K) → waits (q.add s key) k ≡ (key == k || waits s k)
  pub waits-get :
      (s s' : Q) (key k : K)
      → q.get s ≡ some (key, s')
      → (key == k) ≡ false
      → waits s' k ≡ waits s k
  pub waits-done : (s : Q) (key k : K) → waits (q.done s key) k ≡ waits s k
  pub waits-add_rate_limited :
      (s : Q) (key k : K) → waits (q.add_rate_limited s key) k ≡ (key == k || waits s k)
  pub waits-forget : (s : Q) (key k : K) → waits (q.forget s key) k ≡ waits s k

module _ {Q K : Type 0} (q : WorkQueue Q K) where
  -- c.queue.AddRateLimited(key) after an error of the sync, and c.queue.Forget(key) without one.
  abbrev pub settle : Option GoError → K → Q → Q
  settle (some e) key s = q.add_rate_limited s key
  settle none key s = q.forget s key

  -- What follows the sync, with the deferred c.queue.Done(key).
  unfoldable pub end_work : Option GoError → K → Q → Q
  end_work e key s = q.done (settle e key s) key

  -- One call with no other worker in between; `false` ends the worker.
  unfoldable pub process_next : {W : Type 0} → (K → Io W (Option GoError)) → Q → W → Bool × (Q × W)
  unfolding end_work
  process_next sync_once s w = elim (q.get s) [
    | none ↦ (false, (s, w))
    | some (key, s') ↦ let (e, w') = sync_once key w in (true, (end_work e key s', w'))
  ]
