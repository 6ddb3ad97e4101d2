-- ===== src/Console.antt =====
-- internal/console: the lock on the work directory.
pub mod Lock
