-- ===== src/Dynamo/Watcher/Window.antt =====
-- From when on a fast poll asks for changes.
use rosa_hyperfleet_kube_app.Prelude.{ℕ, ◌+◌, ◌-◌, ◌≤◌, ◌<◌, ◌≡◌, if◌then◌else◌, ltb, some, arith}
use rosa_hyperfleet_kube_app.Dynamo.Cache.{Cache, effective_lookback}
use rosa_hyperfleet_kube_app.Dynamo.Watcher.{
  Options, max_lookback_window_or_default, poll_since, relist_interval_or_default,
}

module _ (o : Options) where
  max_lookback-bounds :
      (0 < max_lookback_window_or_default o)
      × (max_lookback_window_or_default o ≤ relist_interval_or_default o)
  unfolding max_lookback_window_or_default
  max_lookback-bounds = (ground arith, ground arith)

  since_last :
      (looked now last : ℕ) (c : Cache)
      → c.last_relist_at ≡ some last
      → last ≤ looked
      → looked ≤ now
      → poll_since o looked now c ≡ (
          if ltb (max_lookback_window_or_default o) (looked - last)
          then now - max_lookback_window_or_default o
          else last + (now - looked))
  unfolding poll_since effective_lookback
  since_last looked now last c at h later = rw at (ground arith)

  -- After a relist, with a clock that is not set back, a fast poll asks from the last relist on, later
  -- by what passes between its two readings of the clock; or, when at the first reading that relist
  -- is longer ago than the greatest lookback, from that lookback before the second reading. The
  -- greatest lookback is positive and at most the relist interval.
  pub poll_since_covers :
      (looked now last : ℕ) (c : Cache)
      → c.last_relist_at ≡ some last
      → last ≤ looked
      → looked ≤ now
      → (poll_since o looked now c ≡ (
          if ltb (max_lookback_window_or_default o) (looked - last)
          then now - max_lookback_window_or_default o
          else last + (now - looked)))
        × (0 < max_lookback_window_or_default o)
        × (max_lookback_window_or_default o ≤ relist_interval_or_default o)
  poll_since_covers looked now last c at h later =
      let bounds = max_lookback-bounds in
      (since_last looked now last c at h later, bounds.0, bounds.1)
