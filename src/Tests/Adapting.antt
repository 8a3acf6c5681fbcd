-- ===== src/Tests/Adapting.antt =====
-- A watch adapter that is stopped, and a fast poll loop with one tick.
use rosa_hyperfleet_kube_app.Prelude.{false, refl}
use rosa_hyperfleet_kube_app.Dynamo.Adapter.Lifecycle.{
  AdapterState, loop_returned, new_watch_adapter, stop_watcher, Reach, started, later,
  adapter_stopped, relist_loop_returns, poll_loop_returns, result_closed, IsOrderly,
  Reach-IsOrderly,
}

abbrev told : AdapterState
told = stop_watcher new_watch_adapter

abbrev relist_gone : AdapterState
relist_gone = record told { relist_loop = loop_returned }

abbrev both_gone : AdapterState
both_gone = record relist_gone { fast_poll_loop = loop_returned }

abbrev closed : AdapterState
closed = record both_gone { watcher_runs = false; result_closes = 1 }

closes : Reach closed
closes =
    later
      (later
        (later (later started (adapter_stopped new_watch_adapter))
          (relist_loop_returns told refl refl))
        (poll_loop_returns relist_gone refl refl))
      (result_closed both_gone refl refl refl)

Reach-IsOrderly_example : IsOrderly closed
Reach-IsOrderly_example = Reach-IsOrderly closed closes
