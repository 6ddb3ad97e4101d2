-- ===== src/Examples.antt =====
-- The theorems at concrete inputs.
mod Samples
mod Bus
mod Observer
mod Calls
mod Restart
mod Reset
mod Schedule
mod Records
mod Removal
mod Watch
mod Snapshot
mod Capacity
mod Scoped
mod Lock
mod Approval
mod Survey
mod Output
