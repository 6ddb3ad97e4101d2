-- ===== src/Steps.antt =====
-- internal/steps: the step that installs, and the evidence that it takes first.
pub mod Ownership
pub mod Apply
pub mod Bundle
