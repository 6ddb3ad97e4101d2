-- ===== src/Engine/World.antt =====
-- internal/engine as a whole: the engine with all the goroutines that work on it at one time. A
-- schedule is a list of actions; each lets a call in or moves one goroutine by one step.
pub mod ResetEnd
pub mod Owner
pub mod Stale
pub mod Drain
pub mod Progress
use aicrme.Prelude.{
  ℕ, zero, suc, String, Bool, true, false, List, [], ◌∷◌, ◌++◌, Option, none, some,
}
use aicrme.Bus.Event.{Event}
use aicrme.Engine.Run.{Run, ResidueItem}
use aicrme.Engine.Codec.{Codec}
use aicrme.Engine.State.{Engine, Thread, Moved, moved, Answer, refused, accepted}
use aicrme.Engine.Calls.{
  start, start_saved, retry, retry_saved, decide, decide_saved, discard, discard_deleted,
}
use aicrme.Engine.Finish.{finish, finish_cleared, finish_saved}
use aicrme.Engine.Execute.{
  execute, await_decisions, await_saved, resumed, await_canceled, run_step, step_saved, emit,
}
use aicrme.Engine.Outcome.{
  StepError, step_failed, step_failure, failure_cleared, merge_step_success, merge_cleared,
  merge_saved,
}
use aicrme.Engine.Teardown.{
  stop, stop_absent, stop_recorded, stop_ended, reset, reset_saved, reset_read, reset_absent,
  reset_removed, record_residue, reset_concluded, reset_deleted, reset_ended,
}

-- What the environment answers to a call made without the lock. A goroutine that stands at a section,
-- or that the answer is not for, does not look at it.
pub data Outcome : Type 0 where
  runs : Outcome
  -- the store has saved or deleted (true), or failed
  stored : Bool → Outcome
  -- `EnsureAbsent`, with the text of its error
  absent : Option String → Outcome
  resume_received context_done : Outcome
  -- a step calls `emit`, or returns, having left its scratch copy of the run
  emitted : Event → Outcome
  step_returned : Run → Outcome
  step_erred : Run → StepError → Outcome
  releases_returned : List ResidueItem → Outcome

unfoldable pub advance : Codec → ℕ → Outcome → Thread → Engine → Moved
advance codec now (stored ok) (Thread.start_saving epoch id previous) e =
    start_saved ok epoch id previous e
advance codec now (stored ok) (Thread.retry_saving epoch id prev_err prev_pending) e =
    retry_saved ok now epoch id prev_err prev_pending e
advance codec now (stored ok) (Thread.decide_saving epoch id prev) e =
    decide_saved ok epoch id prev e
advance codec now (stored ok) (Thread.discard_deleting epoch previous prev_pending) e =
    discard_deleted ok epoch previous prev_pending e
advance codec now (absent none) (Thread.stop_waiting epoch id) e = stop_absent true epoch id e
advance codec now (absent (some err)) (Thread.stop_waiting epoch id) e =
    stop_absent false epoch id e
advance codec now o (Thread.stop_recording epoch id) e = stop_recorded epoch id e
advance codec now o Thread.stop_ending e = stop_ended e
advance codec now (stored ok) (Thread.reset_saving epoch id) e = reset_saved ok now epoch id e
advance codec now o (Thread.executing epoch) e = execute epoch e
advance codec now o (Thread.checking epoch i s) e = await_decisions now epoch i s e
advance codec now (stored ok) (Thread.await_saving epoch i s channel id) e =
    await_saved epoch i s channel id e
advance codec now resume_received (Thread.awaiting epoch i s channel) e =
    resumed epoch i s channel e
advance codec now context_done (Thread.awaiting epoch i s channel) e =
    await_canceled epoch i s channel e
advance codec now o (Thread.step_beginning epoch i s) e = run_step now epoch i s e
advance codec now (stored ok) (Thread.step_saving epoch i s scratch) e =
    step_saved epoch i s scratch e
advance codec now (emitted ev) (Thread.stepping epoch i s scratch) e =
    emit codec epoch i s scratch ev e
advance codec now (step_returned scratch') (Thread.stepping epoch i s scratch) e =
    moved e (Thread.merging epoch i s scratch')
advance codec now (step_erred scratch' err) (Thread.stepping epoch i s scratch) e =
    step_failed epoch i s scratch' err e
advance codec now o (Thread.step_failing epoch i s scratch unconfirmed confirmed msg) e =
    step_failure epoch i s scratch unconfirmed confirmed msg e
advance codec now o (Thread.fail_clearing epoch i s msg) e = failure_cleared epoch i s msg e
advance codec now o (Thread.merging epoch i s scratch) e =
    merge_step_success now epoch i s scratch e
advance codec now o (Thread.merge_clearing epoch i s id) e = merge_cleared epoch i s id e
advance codec now (stored ok) (Thread.merge_saving epoch i s id) e = merge_saved epoch i s id e
advance codec now o (Thread.finishing epoch state msg after) e = finish now epoch state msg after e
advance codec now o (Thread.finish_clearing epoch id state after) e =
    finish_cleared epoch id state after e
advance codec now (stored ok) (Thread.finish_saving epoch id state after) e =
    finish_saved ok epoch id state after e
advance codec now o (Thread.reset_reading epoch id) e = reset_read epoch id e
advance codec now (absent err) (Thread.reset_stopping epoch id run) e =
    reset_absent codec err epoch id run e
advance codec now (releases_returned items) (Thread.reset_removing epoch id run) e =
    reset_removed codec items epoch id run e
advance codec now o (Thread.reset_recording epoch id items incomplete abort) e =
    record_residue now epoch id items incomplete abort e
advance codec now o (Thread.reset_concluding epoch id incomplete) e =
    reset_concluded codec epoch id incomplete e
advance codec now (stored ok) (Thread.reset_deleting epoch id) e = reset_deleted epoch e
advance codec now o (Thread.reset_ending epoch) e = reset_ended epoch e
advance codec now _ t e = moved e t

pub data Call : Type 0 where
  start_run : (id : String) → Call
  retry_run : (id : String) → Call
  decide_run : (id : String) → List (String × String) → Call
  discard_run : (id : String) → Call
  stop_run : (id : String) → Call
  reset_run : (id : String) → Call

unfoldable pub answer : ℕ → Call → Engine → Answer
answer now (start_run id) e = start now id e
answer now (retry_run id) e = retry now id e
answer now (decide_run id ds) e = decide now id ds e
answer now (discard_run id) e = discard id e
answer now (stop_run id) e = stop id e
answer now (reset_run id) e = reset now id e

pub record World : Type 0 where
  pub engine : Engine
  pub threads : List Thread

pub data Action : Type 0 where
  calls : (now : ℕ) → Call → Action
  -- the goroutine at a position of the list moves
  moves : (now position : ℕ) → Outcome → Action
  -- `CancelAndWait`, up to the wait
  cancels : Action

-- Refused calls leave everything as it was.
unfoldable pub admit : Answer → World → World
admit (refused x) w = w
admit (accepted e t) w = record { engine = e; threads = t ∷ w.threads }

unfoldable pub cancel_run : Engine → Engine
cancel_run e = record e {
  draining = true;
  canceled = elim e.cancel [ none ↦ e.canceled | some epoch ↦ epoch ∷ e.canceled ];
}

abbrev pub as_list {ℓ} : {A : Type ℓ} → Option A → List A
as_list none = []
as_list (some t) = t ∷ []

-- The goroutine at `n` takes a step, among the goroutines `before` (in reverse) and those to come.
unfoldable pub move_at : Codec → ℕ → Outcome → ℕ → Engine → List Thread → Engine × List Thread
unfolding advance
move_at codec now o n e [] = (e, [])
move_at codec now o zero e (t ∷ ts) =
    let m = advance codec now o t e in (m.engine, as_list m.next ++ ts)
move_at codec now o (suc n) e (t ∷ ts) = let (e', ts') = move_at codec now o n e ts in (e', t ∷ ts')

unfoldable pub step : Codec → World → Action → World
unfolding answer admit cancel_run move_at
step codec w (calls now c) = admit (answer now c w.engine) w
step codec w (moves now n o) =
    let (e, ts) = move_at codec now o n w.engine w.threads in record { engine = e; threads = ts }
step codec w cancels = record w { engine = cancel_run w.engine }

unfoldable pub run : Codec → World → List Action → World
unfolding step
run codec w [] = w
run codec w (a ∷ rest) = run codec (step codec w a) rest
