-- ===== src/Engine/World/Stale.antt =====
-- internal/engine: a goroutine whose epoch has passed.
use aicrme.Prelude.{ℕ, false, none, some, arith, ◌≡◌}
use aicrme.Engine.Codec.{Codec}
use aicrme.Engine.State.{Engine, Thread, Moved, alive}
use aicrme.Engine.Calls.{start_saved, retry_saved, decide_saved, discard_deleted}
use aicrme.Engine.Finish.{finish, finish_cleared, finish_saved}
use aicrme.Engine.Execute.{
  execute, await_decisions, await_saved, resumed, await_canceled, run_step, step_saved, emit,
}
use aicrme.Engine.Outcome.{
  step_failed, step_failure, failure_cleared, merge_step_success, merge_cleared, merge_saved,
}
use aicrme.Engine.Teardown.{
  stop_absent, stop_recorded, stop_ended, reset_saved, reset_read, reset_absent, reset_removed,
  record_residue, reset_concluded, reset_deleted, reset_ended,
}
use aicrme.Engine.World.{
  Outcome, stored, absent, resume_received, context_done, emitted, step_returned, step_erred,
  releases_returned, advance,
}
use aicrme.Engine.World.Owner.{epoch_of}

-- The run, the action in flight and the epoch are as they were.
abbrev pub Untouched : Engine → Moved → Type 0
Untouched e m =
    (m.engine.current ≡ e.current)
    × (m.engine.attribution ≡ e.attribution)
    × (m.engine.epoch ≡ e.epoch)

-- No step of a goroutine whose epoch is not the engine's touches the run, the attribution or the epoch,
-- whatever the environment answers.
pub advance-stale :
    (codec : Codec) (now : ℕ) (o : Outcome) (t : Thread) (e : Engine)
    → alive e (epoch_of t) ≡ false
    → Untouched e (advance codec now o t e)
unfolding advance start_saved retry_saved decide_saved discard_deleted finish finish_cleared
    finish_saved execute await_decisions await_saved resumed await_canceled run_step step_saved emit
    step_failed step_failure failure_cleared merge_step_success merge_cleared merge_saved
    stop_absent stop_recorded stop_ended reset_saved reset_read reset_absent reset_removed
    record_residue reset_concluded reset_deleted reset_ended
advance-stale codec now (stored ok) (Thread.start_saving epoch id previous) e h = ground arith
advance-stale codec now (stored ok) (Thread.retry_saving epoch id prev_err prev_pending) e h =
    ground arith
advance-stale codec now (stored ok) (Thread.decide_saving epoch id prev) e h = ground arith
advance-stale codec now (stored ok) (Thread.discard_deleting epoch previous prev_pending) e h =
    ground arith
advance-stale codec now (absent none) (Thread.stop_waiting epoch id) e h = ground arith
advance-stale codec now (absent (some err)) (Thread.stop_waiting epoch id) e h = ground arith
advance-stale codec now o (Thread.stop_recording epoch id) e h = ground arith
advance-stale codec now o Thread.stop_ending e h = ground arith
advance-stale codec now (stored ok) (Thread.reset_saving epoch id) e h = ground arith
advance-stale codec now o (Thread.executing epoch) e h = ground arith
advance-stale codec now o (Thread.checking epoch i s) e h = ground arith
advance-stale codec now (stored ok) (Thread.await_saving epoch i s channel id) e h = ground arith
advance-stale codec now resume_received (Thread.awaiting epoch i s channel) e h = ground arith
advance-stale codec now context_done (Thread.awaiting epoch i s channel) e h = ground arith
advance-stale codec now o (Thread.step_beginning epoch i s) e h = ground arith
advance-stale codec now (stored ok) (Thread.step_saving epoch i s scratch) e h = ground arith
advance-stale codec now (emitted ev) (Thread.stepping epoch i s scratch) e h = ground arith
advance-stale codec now (step_returned scratch') (Thread.stepping epoch i s scratch) e h =
    ground arith
advance-stale codec now (step_erred scratch' err) (Thread.stepping epoch i s scratch) e h =
    ground arith
advance-stale codec now o (Thread.step_failing epoch i s scratch u k msg) e h = ground arith
advance-stale codec now o (Thread.fail_clearing epoch i s msg) e h = ground arith
advance-stale codec now o (Thread.merging epoch i s scratch) e h = ground arith
advance-stale codec now o (Thread.merge_clearing epoch i s id) e h = ground arith
advance-stale codec now (stored ok) (Thread.merge_saving epoch i s id) e h = ground arith
advance-stale codec now o (Thread.finishing epoch state msg after) e h = ground arith
advance-stale codec now o (Thread.finish_clearing epoch id state after) e h = ground arith
advance-stale codec now (stored ok) (Thread.finish_saving epoch id state after) e h = ground arith
advance-stale codec now o (Thread.reset_reading epoch id) e h = ground arith
advance-stale codec now (absent err) (Thread.reset_stopping epoch id run) e h = ground arith
advance-stale codec now (releases_returned items) (Thread.reset_removing epoch id run) e h =
    ground arith
advance-stale codec now o (Thread.reset_recording epoch id items incomplete abort) e h =
    ground arith
advance-stale codec now o (Thread.reset_concluding epoch id incomplete) e h = ground arith
advance-stale codec now (stored ok) (Thread.reset_deleting epoch id) e h = ground arith
advance-stale codec now o (Thread.reset_ending epoch) e h = ground arith
advance-stale codec now _ t e h = ground arith
