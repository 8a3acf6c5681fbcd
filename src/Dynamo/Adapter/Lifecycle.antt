-- ===== src/Dynamo/Adapter/Lifecycle.antt =====
-- The goroutines of a watch adapter: Run, Stop and the two loops of watcher.go, and the goroutine of
-- NewWatchAdapter in watch_adapter.go that closes the result channel. They are steps in any order.
use rosa_hyperfleet_kube_app.Prelude.{
  ℕ, suc, ◌≡◌, Bool, true, false, ◌||◌, if◌then◌else◌, ltb, arith,
}

-- A loop of the watcher: in its select, in the callback, or returned.
pub data LoopPlace : Type 0 where
  selecting in_callback loop_returned : LoopPlace

-- `stop_closes` and `result_closes` count the calls of close on w.stopCh and a.resultCh, of which Go
-- allows one each; `late_sends` counts the sends on a closed result channel, which panic.
pub record AdapterState : Type 0 where
  pub context_done : Bool
  pub stop_closes : ℕ
  pub relist_loop : LoopPlace
  pub fast_poll_loop : LoopPlace
  -- the goroutine of NewWatchAdapter is in a.watcher.Run(ctx)
  pub watcher_runs : Bool
  pub result_closes : ℕ
  pub late_sends : ℕ

-- NewWatchAdapter, with the loops that its watcher's Run starts.
abbrev pub new_watch_adapter : AdapterState
new_watch_adapter = record {
  context_done = false;
  stop_closes = 0;
  relist_loop = selecting;
  fast_poll_loop = selecting;
  watcher_runs = true;
  result_closes = 0;
  late_sends = 0;
}

-- close(w.stopCh)
abbrev pub stop_watcher : AdapterState → AdapterState
stop_watcher s = record s { stop_closes = suc s.stop_closes }

-- <-ctx.Done() or <-w.stopCh
abbrev pub is_told_to_stop : AdapterState → Bool
is_told_to_stop s = s.context_done || ltb 0 s.stop_closes

-- select { case a.resultCh <- event: default: }, which panics on a closed channel.
abbrev pub try_send : AdapterState → AdapterState
try_send s = record s {
  late_sends = if ltb 0 s.result_closes then suc s.late_sends else s.late_sends;
}

abbrev has_returned : LoopPlace → Bool
has_returned selecting = false
has_returned in_callback = false
has_returned loop_returned = true

pub data Step : AdapterState → AdapterState → Type 0 where
  context_ends : (s : AdapterState) → Step s (record s { context_done = true })
  adapter_stopped : (s : AdapterState) → Step s (stop_watcher s)
  -- a tick, or the eager relist, and then one callback for each event
  relist_begins :
      (s : AdapterState)
      → s.relist_loop ≡ selecting
      → Step s (record s { relist_loop = in_callback })
  relist_sends : (s : AdapterState) → s.relist_loop ≡ in_callback → Step s (try_send s)
  relist_ends :
      (s : AdapterState)
      → s.relist_loop ≡ in_callback
      → Step s (record s { relist_loop = selecting })
  relist_loop_returns :
      (s : AdapterState)
      → s.relist_loop ≡ selecting
      → is_told_to_stop s ≡ true
      → Step s (record s { relist_loop = loop_returned })
  poll_begins :
      (s : AdapterState)
      → s.fast_poll_loop ≡ selecting
      → Step s (record s { fast_poll_loop = in_callback })
  poll_sends : (s : AdapterState) → s.fast_poll_loop ≡ in_callback → Step s (try_send s)
  poll_ends :
      (s : AdapterState)
      → s.fast_poll_loop ≡ in_callback
      → Step s (record s { fast_poll_loop = selecting })
  poll_loop_returns :
      (s : AdapterState)
      → s.fast_poll_loop ≡ selecting
      → is_told_to_stop s ≡ true
      → Step s (record s { fast_poll_loop = loop_returned })
  -- <-relistDone; <-pollDone; close(a.resultCh)
  result_closed :
      (s : AdapterState)
      → s.watcher_runs ≡ true
      → has_returned s.relist_loop ≡ true
      → has_returned s.fast_poll_loop ≡ true
      → Step s (record s { watcher_runs = false; result_closes = suc s.result_closes })

pub data Reach : AdapterState → Type 0 where
  started : Reach new_watch_adapter
  later : {s t : AdapterState} → Reach s → Step s t → Reach t

-- The channel is open while a loop may send, and is closed when both have returned.
pub record IsOrderly (s : AdapterState) : Type 0 where
  pub never_late : s.late_sends ≡ 0
  pub closed_once : s.result_closes ≡ (if s.watcher_runs then 0 else 1)
  pub relist_over : s.watcher_runs ≡ false → s.relist_loop ≡ loop_returned
  pub poll_over : s.watcher_runs ≡ false → s.fast_poll_loop ≡ loop_returned
  pub relist_told : s.relist_loop ≡ loop_returned → is_told_to_stop s ≡ true

start-IsOrderly : IsOrderly new_watch_adapter
start-IsOrderly = ground arith

Step-IsOrderly : {s t : AdapterState} → Step s t → IsOrderly s → IsOrderly t
Step-IsOrderly (context_ends s) h = ground arith
Step-IsOrderly (adapter_stopped s) h = ground arith
Step-IsOrderly (relist_begins s at_place) h = ground arith
Step-IsOrderly (relist_sends s at_place) h = ground arith
Step-IsOrderly (relist_ends s at_place) h = ground arith
Step-IsOrderly (relist_loop_returns s at_place told) h = ground arith
Step-IsOrderly (poll_begins s at_place) h = ground arith
Step-IsOrderly (poll_sends s at_place) h = ground arith
Step-IsOrderly (poll_ends s at_place) h = ground arith
Step-IsOrderly (poll_loop_returns s at_place told) h = ground arith
Step-IsOrderly (result_closed s runs relist poll) h = ground arith

-- Whatever the context, Stop and the two loops do and in whatever order, no event is ever sent on a
-- closed result channel, the channel is closed at most once, and it is closed only when both
-- loops have returned, after the context has ended or Stop has been called: until then the
-- informer never sees its watch end.
pub Reach-IsOrderly : (s : AdapterState) → Reach s → IsOrderly s
Reach-IsOrderly _ started = start-IsOrderly
Reach-IsOrderly _ (later {s} r step) = Step-IsOrderly step (Reach-IsOrderly s r)
