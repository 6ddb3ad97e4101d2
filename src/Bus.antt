-- ===== src/Bus.antt =====
-- internal/bus: the typed events, the cluster conditions and the fan-out hub.
pub mod Event
pub mod Cluster
pub mod Hub
