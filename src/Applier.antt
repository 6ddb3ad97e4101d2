-- ===== src/Applier.antt =====
-- internal/applier: the run of deploy.sh, whose output becomes events.
pub mod Lines
pub mod Tail
pub mod Matcher
pub mod Parse
pub mod Apply
