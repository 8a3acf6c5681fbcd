-- ===== src/Controllers.antt =====
-- pkg/controllers and internal/controllerutils: what the controllers record, when they may run, and
-- how they reconcile a desire.
pub mod Conditions
pub mod StatusWriter
pub mod Keys
pub mod Cooldown
pub mod Kube
pub mod Worker
pub mod ApplyDesire
pub mod ReadKubernetes
pub mod ReadManager
pub mod Workers
