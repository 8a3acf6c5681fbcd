-- ===== src/Controllers/Workers.antt =====
-- processNext of the three controllers.
use rosa_hyperfleet_kube_app.Prelude.{Bool}
use rosa_hyperfleet_kube_app.Controllers.Keys.{ApplyDesireKey, ReadDesireKey}
use rosa_hyperfleet_kube_app.Controllers.Worker.{WorkQueue, process_next}
use rosa_hyperfleet_kube_app.Controllers.ApplyDesire.{Controller, sync_once}
use rosa_hyperfleet_kube_app.Controllers.ReadManager.{Manager, ManagerState, manager_sync_once}
use rosa_hyperfleet_kube_app.Controllers.ReadKubernetes.{
  Services, Instance, Informer, read_sync_once,
}

module _ {Q W : Type 0} where
  unfoldable pub apply_process_next :
      WorkQueue Q ApplyDesireKey → Controller W → Q → W → Bool × (Q × W)
  unfolding process_next
  apply_process_next q c = process_next q (sync_once c)

  -- SyncOnce has the key of the controller, whatever key it is given.
  unfoldable pub read_process_next :
      WorkQueue Q ReadDesireKey → Services W → Instance → Informer W → Q → W → Bool × (Q × W)
  unfolding process_next
  read_process_next q s c informer = process_next q (λ key. read_sync_once s c informer)

  -- The manager's own state is part of what its sync changes.
  unfoldable pub manager_process_next :
      WorkQueue Q ReadDesireKey → Manager W → Q → ManagerState × W → Bool × (Q × (ManagerState × W))
  unfolding process_next
  manager_process_next q c =
      process_next q
        (λ key (s, w). let ((e, s'), w') = manager_sync_once c key s w in (e, (s', w')))
