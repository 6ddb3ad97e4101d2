-- ===== src/Observer.antt =====
-- internal/observer: what the cluster watcher does with a condition before it reaches the hub.
pub mod Debounce
pub mod Pods
pub mod Tracked
pub mod Events
pub mod Conditions
pub mod Workloads
pub mod Scoped
