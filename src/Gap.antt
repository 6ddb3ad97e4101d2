-- ===== src/Gap.antt =====
-- internal/gap: what a snapshot of the cluster says that it lacks.
pub mod Probe
pub mod Counts
pub mod Rules
pub mod Report
pub mod Evidence
