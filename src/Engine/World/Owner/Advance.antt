-- ===== src/Engine/World/Owner/Advance.antt =====
-- internal/engine: every step of every goroutine is sound.
use aicrme.Prelude.{ℕ, true, false, none, some, arith}
use aicrme.Engine.Codec.{Codec}
use aicrme.Engine.State.{Engine, Thread, moved}
use aicrme.Engine.World.{
  Outcome, stored, absent, resume_received, context_done, emitted, step_returned, step_erred,
  releases_returned, advance,
}
use aicrme.Engine.World.Owner.{KeepsOrder}
use aicrme.Engine.World.Owner.Drive
use aicrme.Engine.World.Owner.Serve

stays-KeepsOrder : (e : Engine) (t : Thread) → KeepsOrder e t (moved e t)
stays-KeepsOrder e t p c = ground arith

pub advance-KeepsOrder :
    (codec : Codec) (now : ℕ) (o : Outcome) (t : Thread) (e : Engine)
    → KeepsOrder e t (advance codec now o t e)
unfolding advance
advance-KeepsOrder codec now (stored ok) (Thread.start_saving epoch id previous) e =
    Serve.start_saved-KeepsOrder e ok epoch id previous
advance-KeepsOrder codec now (stored ok) (Thread.retry_saving epoch id prev_err prev_pending) e =
    Serve.retry_saved-KeepsOrder e ok now epoch id prev_err prev_pending
advance-KeepsOrder codec now (stored ok) (Thread.decide_saving epoch id prev) e =
    Serve.decide_saved-KeepsOrder e ok epoch id prev
advance-KeepsOrder codec now (stored ok) (Thread.discard_deleting epoch previous prev_pending) e =
    Serve.discard_deleted-KeepsOrder e ok epoch previous prev_pending
advance-KeepsOrder codec now (absent none) (Thread.stop_waiting epoch id) e =
    Serve.stop_absent-KeepsOrder e true epoch id
advance-KeepsOrder codec now (absent (some err)) (Thread.stop_waiting epoch id) e =
    Serve.stop_absent-KeepsOrder e false epoch id
advance-KeepsOrder codec now o (Thread.stop_recording epoch id) e =
    Serve.stop_recorded-KeepsOrder e epoch id
advance-KeepsOrder codec now o Thread.stop_ending e = Serve.stop_ended-KeepsOrder e
advance-KeepsOrder codec now (stored ok) (Thread.reset_saving epoch id) e =
    Serve.reset_saved-KeepsOrder e ok now epoch id
advance-KeepsOrder codec now o (Thread.executing epoch) e = Drive.execute-KeepsOrder e epoch
advance-KeepsOrder codec now o (Thread.checking epoch i s) e =
    Drive.await_decisions-KeepsOrder e now epoch i s
advance-KeepsOrder codec now (stored ok) (Thread.await_saving epoch i s channel id) e =
    Drive.await_saved-KeepsOrder e epoch i s channel id
advance-KeepsOrder codec now resume_received (Thread.awaiting epoch i s channel) e =
    Drive.resumed-KeepsOrder e epoch i s channel
advance-KeepsOrder codec now context_done (Thread.awaiting epoch i s channel) e =
    Drive.await_canceled-KeepsOrder e epoch i s channel
advance-KeepsOrder codec now o (Thread.step_beginning epoch i s) e =
    Drive.run_step-KeepsOrder e now epoch i s
advance-KeepsOrder codec now (stored ok) (Thread.step_saving epoch i s scratch) e =
    Drive.step_saved-KeepsOrder e epoch i s scratch
advance-KeepsOrder codec now (emitted ev) (Thread.stepping epoch i s scratch) e =
    Drive.emit-KeepsOrder e codec epoch i s scratch ev
advance-KeepsOrder codec now (step_returned scratch') (Thread.stepping epoch i s scratch) e =
    Drive.step_returned-KeepsOrder e epoch i s scratch scratch'
advance-KeepsOrder codec now (step_erred scratch' err) (Thread.stepping epoch i s scratch) e =
    Drive.step_failed-KeepsOrder e epoch i s scratch scratch' err
advance-KeepsOrder codec now o (Thread.step_failing epoch i s scratch u k msg) e =
    Drive.step_failure-KeepsOrder e epoch i s scratch u k msg
advance-KeepsOrder codec now o (Thread.fail_clearing epoch i s msg) e =
    Drive.failure_cleared-KeepsOrder e epoch i s msg
advance-KeepsOrder codec now o (Thread.merging epoch i s scratch) e =
    Drive.merge_step_success-KeepsOrder e now epoch i s scratch
advance-KeepsOrder codec now o (Thread.merge_clearing epoch i s id) e =
    Drive.merge_cleared-KeepsOrder e epoch i s id
advance-KeepsOrder codec now (stored ok) (Thread.merge_saving epoch i s id) e =
    Drive.merge_saved-KeepsOrder e epoch i s id
advance-KeepsOrder codec now o (Thread.finishing epoch state msg after) e =
    Serve.finish-KeepsOrder e now epoch state msg after
advance-KeepsOrder codec now o (Thread.finish_clearing epoch id state after) e =
    Serve.finish_cleared-KeepsOrder e epoch id state after
advance-KeepsOrder codec now (stored ok) (Thread.finish_saving epoch id state after) e =
    Serve.finish_saved-KeepsOrder e ok epoch id state after
advance-KeepsOrder codec now o (Thread.reset_reading epoch id) e =
    Serve.reset_read-KeepsOrder e epoch id
advance-KeepsOrder codec now (absent err) (Thread.reset_stopping epoch id run) e =
    Serve.reset_absent-KeepsOrder e codec err epoch id run
advance-KeepsOrder codec now (releases_returned items) (Thread.reset_removing epoch id run) e =
    Serve.reset_removed-KeepsOrder e codec items epoch id run
advance-KeepsOrder codec now o (Thread.reset_recording epoch id items incomplete abort) e =
    Serve.record_residue-KeepsOrder e now epoch id items incomplete abort
advance-KeepsOrder codec now o (Thread.reset_concluding epoch id incomplete) e =
    Serve.reset_concluded-KeepsOrder e codec epoch id incomplete
advance-KeepsOrder codec now (stored ok) (Thread.reset_deleting epoch id) e =
    Serve.reset_deleted-KeepsOrder e epoch id
advance-KeepsOrder codec now o (Thread.reset_ending epoch) e = Serve.reset_ended-KeepsOrder e epoch
advance-KeepsOrder codec now _ t e = stays-KeepsOrder e t
