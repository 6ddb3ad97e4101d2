-- ===== src/Engine.antt =====
-- internal/engine: the run's state machine.
pub mod Run
pub mod Codec
pub mod Refusal
pub mod State
pub mod Report
pub mod Calls
pub mod Finish
pub mod Execute
pub mod Outcome
pub mod Teardown
pub mod Recover
pub mod Reconcile
pub mod Store
pub mod Envelope
pub mod FileStore
pub mod World
