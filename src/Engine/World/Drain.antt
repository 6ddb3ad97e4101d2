-- ===== src/Engine/World/Drain.antt =====
-- internal/engine: once `CancelAndWait` has set `draining`.
use aicrme.Prelude.{
  ℕ, zero, suc, true, none, some, arith, ◌≡◌, refl, sym, List, [], ◌∷◌, ◌∙◌, inl, inr,
}
use aicrme.Engine.Codec.{Codec}
use aicrme.Engine.State.{Engine, Thread}
use aicrme.Engine.Calls.{start_saved, retry_saved, decide_saved, discard_deleted}
use aicrme.Engine.Finish.{finish, finish_cleared, finish_saved}
use aicrme.Engine.Execute.{
  execute, await_decisions, await_saved, resumed, await_canceled, run_step, step_saved, emit,
}
use aicrme.Engine.Outcome.{
  step_failed, step_failure, failure_cleared, merge_step_success, merge_cleared, merge_saved,
}
use aicrme.Engine.Teardown.{
  stop_absent, stop_recorded, stop_ended, reset_saved, reset_read, reset_absent, reset_removed,
  record_residue, reset_concluded, reset_deleted, reset_ended,
}
use aicrme.Engine.World.{
  Outcome, stored, absent, resume_received, context_done, emitted, step_returned, step_erred,
  releases_returned, advance,
}
use aicrme.Engine.Calls.{start, start_refusal, retry, decide, discard}
use aicrme.Engine.Teardown.{stop, reset, reset_refusal}
use aicrme.Engine.State.{accepted}
use aicrme.Engine.World.{
  Call, start_run, retry_run, decide_run, discard_run, stop_run, reset_run, answer, World, Action,
  calls, moves, cancels, admit, cancel_run, move_at, step, run,
}
use aicrme.Engine.World.Owner.Single.{Answer-cases}

-- Both fields are as they were.
abbrev Frozen : Engine → Engine → Type 0
Frozen e e' = (e'.draining ≡ e.draining) × (e'.epoch ≡ e.epoch)

advance-Frozen :
    (codec : Codec) (now : ℕ) (o : Outcome) (t : Thread) (e : Engine)
    → Frozen e (advance codec now o t e).engine
unfolding advance start_saved retry_saved decide_saved discard_deleted finish finish_cleared
    finish_saved execute await_decisions await_saved resumed await_canceled run_step step_saved emit
    step_failed step_failure failure_cleared merge_step_success merge_cleared merge_saved
    stop_absent stop_recorded stop_ended reset_saved reset_read reset_absent reset_removed
    record_residue reset_concluded reset_deleted reset_ended
advance-Frozen codec now (stored ok) (Thread.start_saving epoch id previous) e = ground arith
advance-Frozen codec now (stored ok) (Thread.retry_saving epoch id prev_err prev_pending) e =
    ground arith
advance-Frozen codec now (stored ok) (Thread.decide_saving epoch id prev) e = ground arith
advance-Frozen codec now (stored ok) (Thread.discard_deleting epoch previous prev_pending) e =
    ground arith
advance-Frozen codec now (absent none) (Thread.stop_waiting epoch id) e = ground arith
advance-Frozen codec now (absent (some err)) (Thread.stop_waiting epoch id) e = ground arith
advance-Frozen codec now o (Thread.stop_recording epoch id) e = ground arith
advance-Frozen codec now o Thread.stop_ending e = ground arith
advance-Frozen codec now (stored ok) (Thread.reset_saving epoch id) e = ground arith
advance-Frozen codec now o (Thread.executing epoch) e = ground arith
advance-Frozen codec now o (Thread.checking epoch i s) e = ground arith
advance-Frozen codec now (stored ok) (Thread.await_saving epoch i s channel id) e = ground arith
advance-Frozen codec now resume_received (Thread.awaiting epoch i s channel) e = ground arith
advance-Frozen codec now context_done (Thread.awaiting epoch i s channel) e = ground arith
advance-Frozen codec now o (Thread.step_beginning epoch i s) e = ground arith
advance-Frozen codec now (stored ok) (Thread.step_saving epoch i s scratch) e = ground arith
advance-Frozen codec now (emitted ev) (Thread.stepping epoch i s scratch) e = ground arith
advance-Frozen codec now (step_returned scratch') (Thread.stepping epoch i s scratch) e =
    ground arith
advance-Frozen codec now (step_erred scratch' err) (Thread.stepping epoch i s scratch) e =
    ground arith
advance-Frozen codec now o (Thread.step_failing epoch i s scratch u k msg) e = ground arith
advance-Frozen codec now o (Thread.fail_clearing epoch i s msg) e = ground arith
advance-Frozen codec now o (Thread.merging epoch i s scratch) e = ground arith
advance-Frozen codec now o (Thread.merge_clearing epoch i s id) e = ground arith
advance-Frozen codec now (stored ok) (Thread.merge_saving epoch i s id) e = ground arith
advance-Frozen codec now o (Thread.finishing epoch state msg after) e = ground arith
advance-Frozen codec now o (Thread.finish_clearing epoch id state after) e = ground arith
advance-Frozen codec now (stored ok) (Thread.finish_saving epoch id state after) e = ground arith
advance-Frozen codec now o (Thread.reset_reading epoch id) e = ground arith
advance-Frozen codec now (absent err) (Thread.reset_stopping epoch id run) e = ground arith
advance-Frozen codec now (releases_returned items) (Thread.reset_removing epoch id run) e =
    ground arith
advance-Frozen codec now o (Thread.reset_recording epoch id items incomplete abort) e = ground arith
advance-Frozen codec now o (Thread.reset_concluding epoch id incomplete) e = ground arith
advance-Frozen codec now (stored ok) (Thread.reset_deleting epoch id) e = ground arith
advance-Frozen codec now o (Thread.reset_ending epoch) e = ground arith
advance-Frozen codec now _ t e = ground arith

move_at-Frozen :
    (codec : Codec) (now : ℕ) (o : Outcome) (n : ℕ) (e : Engine) (ts : List Thread)
    → Frozen e (move_at codec now o n e ts).0
unfolding move_at
move_at-Frozen codec now o n e [] = (refl, refl)
move_at-Frozen codec now o zero e (t ∷ ts) = advance-Frozen codec now o t e
move_at-Frozen codec now o (suc n) e (t ∷ ts) = move_at-Frozen codec now o n e ts

answer-Frozen :
    (now : ℕ) (c : Call) (e e' : Engine) (t : Thread)
    → e.draining ≡ true
    → answer now c e ≡ accepted e' t
    → Frozen e e'
unfolding answer start start_refusal retry decide discard stop reset reset_refusal
answer-Frozen now (start_run id) e e' t h k = ground arith
answer-Frozen now (retry_run id) e e' t h k = ground arith
answer-Frozen now (decide_run id ds) e e' t h k = ground arith
answer-Frozen now (discard_run id) e e' t h k = ground arith
answer-Frozen now (stop_run id) e e' t h k = ground arith
answer-Frozen now (reset_run id) e e' t h k = ground arith

step-Frozen :
    (codec : Codec) (w : World) (a : Action)
    → w.engine.draining ≡ true
    → Frozen w.engine (step codec w a).engine
unfolding step admit cancel_run
step-Frozen codec w (calls now c) h = elim (Answer-cases (answer now c w.engine)) [
  | inl (x, q) ↦ rw q (refl, refl)
  | inr (e', t, q) ↦ rw q (answer-Frozen now c w.engine e' t h q)
]
step-Frozen codec w (moves now n o) h = move_at-Frozen codec now o n w.engine w.threads
step-Frozen codec w cancels h = (sym h, refl)

-- Once the engine drains it keeps draining, and no call of any later schedule takes a new epoch: no
-- run is started, retried or reset any more.
pub draining_is_final :
    (codec : Codec) (w : World) (actions : List Action)
    → w.engine.draining ≡ true
    → let w' = run codec w actions in
      (w'.engine.draining ≡ true) × (w'.engine.epoch ≡ w.engine.epoch)
unfolding run
draining_is_final codec w [] h = (h, refl)
draining_is_final codec w (a ∷ actions) h =
    let f = step-Frozen codec w a h in
    let g = draining_is_final codec (step codec w a) actions (f.0 ∙ h) in (g.0, g.1 ∙ f.1)
