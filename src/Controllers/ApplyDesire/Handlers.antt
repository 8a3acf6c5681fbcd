-- ===== src/Controllers/ApplyDesire/Handlers.antt =====
-- pkg/controllers/apply_desire/controller.go: the informer's event handlers. The work queue is
-- client-go's: what a handler adds to it is its result. An event's object is nil here
-- where it is of another type.
use rosa_hyperfleet_kube_app.Prelude.{
  ℕ, String, Bool, true, false, not, Option, none, some, if◌then◌else◌, ◌==◌, string_eq, nat_eq,
}
use rosa_hyperfleet_kube_app.Base.{GoError, ok, err, Io}
use rosa_hyperfleet_kube_app.Api.{ApplyDesire, apply_desire_type_delete}
use rosa_hyperfleet_kube_app.Controllers.Keys.{ApplyDesireKey, apply_desire_key_from_desire}
use rosa_hyperfleet_kube_app.Controllers.Cooldown.{Lru, can_sync}

-- The durations of Config, in seconds; 0 takes the default.
pub record Config : Type 0 where
  pub cooldown_period : ℕ
  pub delete_cooldown_period : ℕ

unfoldable pub with_defaults : Config → Config
with_defaults cfg = record {
  cooldown_period = if cfg.cooldown_period == 0 then 600 else cfg.cooldown_period;
  delete_cooldown_period =
      if cfg.delete_cooldown_period == 0 then 60 else cfg.delete_cooldown_period;
}

-- The state of the two cooldown checkers.
pub record Cooldowns (L : Type 0) : Type 0 where
  pub cooldown : L
  pub delete_cooldown : L

-- The key that is added to the queue, if one is.
unfoldable pub enqueue : ApplyDesire → Option ApplyDesireKey
enqueue d = elim (apply_desire_key_from_desire d) [ err e ↦ none | ok key ↦ some key ]

module _ {L : Type 0} (lru : Lru ApplyDesireKey L) (cfg : Config) (now : ℕ) where
  abbrev admit : Bool → ApplyDesireKey → Option ApplyDesireKey
  admit true key = some key
  admit false key = none

  abbrev gate : ApplyDesireKey → Bool → Cooldowns L → Option ApplyDesireKey × Cooldowns L
  gate key true s =
      let (r, l) =
        can_sync lru (with_defaults cfg).delete_cooldown_period now key s.delete_cooldown in
      (admit r key, record s { delete_cooldown = l })
  gate key false s =
      let (r, l) = can_sync lru (with_defaults cfg).cooldown_period now key s.cooldown in
      (admit r key, record s { cooldown = l })

  unfoldable pub enqueue_with_cooldown :
      ApplyDesire → Bool → Cooldowns L → Option ApplyDesireKey × Cooldowns L
  enqueue_with_cooldown d changed s = elim (apply_desire_key_from_desire d) [
    | err e ↦ (none, s)
    | ok key ↦
        if changed then (some key, s) else gate key (d.spec.type == apply_desire_type_delete) s
  ]

  unfoldable pub handle_update :
      Option ApplyDesire → Option ApplyDesire → Cooldowns L → Option ApplyDesireKey × Cooldowns L
  unfolding enqueue_with_cooldown
  handle_update (some old) (some new) s =
      enqueue_with_cooldown new (not (old.metadata.update_time == new.metadata.update_time)) s
  handle_update _ _ s = (none, s)

unfoldable pub handle_add : Option ApplyDesire → Option ApplyDesireKey
unfolding enqueue
handle_add none = none
handle_add (some d) = enqueue d

-- The object of a delete event: a desire, a tombstone that holds what it holds, or something else.
pub data Deleted : Type 0 where
  deleted_desire : ApplyDesire → Deleted
  deleted_final_state_unknown : Option ApplyDesire → Deleted
  deleted_other : Deleted

abbrev deleted_object : Deleted → Option ApplyDesire
deleted_object (deleted_desire d) = some d
deleted_object (deleted_final_state_unknown o) = o
deleted_object deleted_other = none

-- An error of the Delete, of the status database, is logged.
unfoldable pub handle_delete :
    {W : Type 0} (delete : String → Io W (Option GoError)) → Deleted → W → W
handle_delete delete obj w = elim (deleted_object obj) [
  | none ↦ w
  | some d ↦ (delete d.metadata.document_id w).1
]
