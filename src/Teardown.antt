-- ===== src/Teardown.antt =====
-- internal/teardown: what one run installed is removed, release by release.
pub mod Purge
pub mod Releases
pub mod Adapter
pub mod Order
pub mod Ours
pub mod Complete
pub mod Cancel
pub mod Evidence
