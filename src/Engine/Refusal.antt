-- ===== src/Engine/Refusal.antt =====
-- The errors that the calls of internal/engine return: one constructor for each distinct message.
use aicrme.Prelude.{String}

pub data Refusal : Type 0 where
  draining recovered_waiting run_in_progress workload_running cleanup_unconfirmed : Refusal
  reset_unfinished run_not_found not_awaiting not_failed run_is_live workload_held : Refusal
  no_active_workload no_cluster_client nothing_installed no_teardown : Refusal
  cluster_mismatch save_failed delete_failed stop_failed : Refusal
  decision_not_requested decision_missing : String → Refusal
