-- ===== src/Controllers/ReadManager/Handlers.antt =====
-- pkg/controllers/read_desire_manager/controller.go: the informer's event handlers. What one adds to the
-- work queue is its result.
use rosa_hyperfleet_kube_app.Prelude.{
  ℕ, String, Bool, true, false, not, Option, none, some, if◌then◌else◌, ◌==◌, string_eq, nat_eq,
}
use rosa_hyperfleet_kube_app.Base.{GoError, Result, ok, err, Io}
use rosa_hyperfleet_kube_app.Api.{ReadDesire, read_desire}
use rosa_hyperfleet_kube_app.Controllers.Cooldown.{Lru, can_sync}
use rosa_hyperfleet_kube_app.Controllers.Keys.{ReadDesireKey, read_desire_key_from_desire}
use rosa_hyperfleet_kube_app.Controllers.ReadManager.{key_eq, ManagerState, stop_by_key}

-- The object of a delete event: a desire, a tombstone that holds what it holds, or something else.
pub data DeletedRead : Type 0 where
  deleted_read : ReadDesire → DeletedRead
  deleted_read_unknown : Option ReadDesire → DeletedRead
  deleted_read_other : DeletedRead

abbrev deleted_read_object : DeletedRead → Option ReadDesire
deleted_read_object (deleted_read d) = some d
deleted_read_object (deleted_read_unknown o) = o
deleted_read_object deleted_read_other = none

-- ReadDesireKey{ClusterID: d.Spec.ClusterID, Name: d.GetDocumentID()}
abbrev pub delete_key : ReadDesire → ReadDesireKey
delete_key d = record {
  cluster_id = d.spec.cluster_id;
  node_pool_name = "";
  name = d.metadata.document_id;
}

-- An error of the Delete, of the status database, is logged.
unfoldable pub handle_read_delete :
    {W : Type 0} (delete : String → Io W (Option GoError))
    → DeletedRead
    → ManagerState
    → W
    → ManagerState × W
unfolding stop_by_key
handle_read_delete delete obj s w = elim (deleted_read_object obj) [
  | none ↦ (s, w)
  | some d ↦ (stop_by_key (delete_key d) s, (delete d.metadata.document_id w).1)
]

-- The key that is added to the queue, if one is; the object is nil where it is of another type.
abbrev enqueue_read_some : Result ReadDesireKey → Option ReadDesireKey
enqueue_read_some (err e) = none
enqueue_read_some (ok key) = some key

unfoldable pub enqueue_read : ReadDesire → Option ReadDesireKey
enqueue_read d = enqueue_read_some (read_desire_key_from_desire d)

unfoldable pub handle_read_add : Option ReadDesire → Option ReadDesireKey
unfolding enqueue_read
handle_read_add none = none
handle_read_add (some d) = enqueue_read d

module _ {L : Type 0} (lru : Lru ReadDesireKey L) (cooldown_period now : ℕ) where
  abbrev admit_read : Bool → ReadDesireKey → Option ReadDesireKey
  admit_read true key = some key
  admit_read false key = none

  abbrev gate_read : Result ReadDesireKey → L → Option ReadDesireKey × L
  gate_read (err e) l = (none, l)
  gate_read (ok key) l =
      let (allowed, l') = can_sync lru cooldown_period now key l in (admit_read allowed key, l')

  unfoldable pub handle_read_update :
      Option ReadDesire → Option ReadDesire → L → Option ReadDesireKey × L
  unfolding enqueue_read
  handle_read_update (some old) (some new) l =
      if not (old.metadata.update_time == new.metadata.update_time)
      then (enqueue_read new, l)
      else gate_read (read_desire_key_from_desire new) l
  handle_read_update _ _ l = (none, l)
