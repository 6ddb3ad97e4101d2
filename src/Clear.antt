-- ===== src/Clear.antt =====
-- internal/clear: the survey of a cluster for components that no run owns.
pub mod Command
pub mod Universe
pub mod Charts
pub mod Listing
pub mod Recommend
pub mod Survey
