-- ===== src/Tests/Working.antt =====
-- A work queue as a list, and a worker whose first sync fails.
use rosa_hyperfleet_kube_app.Prelude.{
  ℕ, String, ◌≡◌, refl, true, false, Option, none, some, List, [], ◌∷◌, contains, if◌then◌else◌,
  ◌==◌, string_eq,
}
use rosa_hyperfleet_kube_app.Base.{not_found}
use rosa_hyperfleet_kube_app.Controllers.Worker.{WorkQueue, IsWorkQueue, process_next, end_work}
use rosa_hyperfleet_kube_app.Controllers.Worker.Delivered.{
  State, event, sync_begins, sync_ends, Reach, begin, later, start, IsCovered, Reach-IsCovered,
}

abbrev taken : List String → Option (String × List String)
taken [] = none
taken (k ∷ ks) = some (k, ks)

abbrev list_queue : WorkQueue (List String) String
list_queue = record {
  add = λ s k. k ∷ s;
  get = taken;
  done = λ s k. s;
  add_rate_limited = λ s k. k ∷ s;
  forget = λ s k. s;
}

taken_others :
    (s s' : List String) (key k : String)
    → taken s ≡ some (key, s')
    → (key == k) ≡ false
    → contains s' k ≡ contains s k
taken_others [] s' key k h other = absurd (cc h)
taken_others (x ∷ xs) s' key k h other =
    let same : x ≡ key = cc h in let rest : xs ≡ s' = cc h in rw (← rest, same, other) refl

abbrev list_law : IsWorkQueue list_queue
list_law = record {
  waits = contains;
  waits-add = λ s key k. refl;
  waits-get = taken_others;
  waits-done = λ s key k. refl;
  waits-add_rate_limited = λ s key k. refl;
  waits-forget = λ s key k. refl;
}

-- An event for "a", and a sync of it that fails.
abbrev added : State list_queue
added = record (start list_queue []) {
  queue = "a" ∷ [];
  now = 1;
  event_at = λ k. if "a" == k then 1 else 0;
}

abbrev syncing : State list_queue
syncing = record added { queue = []; running = λ k. if "a" == k then some 1 else none }

abbrev failed : State list_queue
failed = record syncing {
  queue = "a" ∷ [];
  running = λ k. if "a" == k then none else syncing.running k;
}

fails : Reach list_queue [] failed
unfolding end_work
fails =
    later
      (later (later begin (event (start list_queue []) "a")) (sync_begins added "a" [] refl refl))
      (sync_ends syncing "a" 1 (some not_found) refl)

Reach-IsCovered_example : IsCovered 1 0 none true
Reach-IsCovered_example = Reach-IsCovered list_queue list_law [] failed fails "a"

one_key : (process_next list_queue {W = ℕ} (λ k w. (none, w)) ("a" ∷ []) 0).1.0 ≡ []
unfolding process_next
one_key = refl
