-- ===== src/Engine/World/Owner/Drive.antt =====
-- internal/engine: every section of the goroutine that drives a run is sound.
use aicrme.Prelude.{
  ℕ, zero, suc, leb, length, ◌≢◌, ◌≡◌, refl, String, Bool, false, List, [], ◌∷◌, Option, none, some,
  arith,
}
use aicrme.Bus.Event.{Event}
use aicrme.Engine.Run.{Run, is_live}
use aicrme.Engine.Codec.{Codec}
use aicrme.Engine.State.{Engine, Step, Thread, moved}
use aicrme.Engine.Execute.{
  execute, await_decisions, await_saved, resumed, await_canceled, run_step, step_saved, emit,
  terminal_state, step_at,
}
use aicrme.Engine.Outcome.{
  StepError, step_failed, step_failure, failure_cleared, merge_step_success, merge_cleared,
  merge_saved,
}
use aicrme.Engine.World.Owner.{KeepsOrder}

terminal_state-not_live : (steps : List Step) → is_live (terminal_state steps) ≡ false
unfolding terminal_state
terminal_state-not_live [] = refl
terminal_state-not_live (s ∷ []) = ground arith
terminal_state-not_live (s ∷ t ∷ steps) = terminal_state-not_live (t ∷ steps)

abbrev index_of : Option Run → ℕ
index_of none = 0
index_of (some r) = r.step_index

-- An index below the number of steps finds a step.
step_at_ne_none :
    (i : ℕ) (steps : List Step) → leb (length steps) i ≡ false → step_at i steps ≢ none
unfolding step_at
step_at_ne_none i [] h = ground arith
step_at_ne_none zero (s ∷ steps) h = λ e. cc
step_at_ne_none (suc i) (s ∷ steps) h = step_at_ne_none i steps (ground arith)

pub execute-KeepsOrder :
    (e : Engine) (epoch : ℕ) → KeepsOrder e (Thread.executing epoch) (execute epoch e)
unfolding execute
execute-KeepsOrder e epoch p c =
    ground (arith, terminal_state-not_live e.steps, step_at_ne_none (index_of e.current) e.steps)

pub await_decisions-KeepsOrder :
    (e : Engine) (now epoch i : ℕ) (s : Step)
    → KeepsOrder e (Thread.checking epoch i s) (await_decisions now epoch i s e)
unfolding await_decisions
await_decisions-KeepsOrder e now epoch i s p c = ground arith

pub await_saved-KeepsOrder :
    (e : Engine) (epoch i : ℕ) (s : Step) (channel : ℕ) (id : String)
    → KeepsOrder e (Thread.await_saving epoch i s channel id) (await_saved epoch i s channel id e)
unfolding await_saved
await_saved-KeepsOrder e epoch i s channel id p c = ground arith

pub resumed-KeepsOrder :
    (e : Engine) (epoch i : ℕ) (s : Step) (channel : ℕ)
    → KeepsOrder e (Thread.awaiting epoch i s channel) (resumed epoch i s channel e)
unfolding resumed
resumed-KeepsOrder e epoch i s channel p c = ground arith

pub await_canceled-KeepsOrder :
    (e : Engine) (epoch i : ℕ) (s : Step) (channel : ℕ)
    → KeepsOrder e (Thread.awaiting epoch i s channel) (await_canceled epoch i s channel e)
unfolding await_canceled
await_canceled-KeepsOrder e epoch i s channel p c = ground arith

pub run_step-KeepsOrder :
    (e : Engine) (now epoch i : ℕ) (s : Step)
    → KeepsOrder e (Thread.step_beginning epoch i s) (run_step now epoch i s e)
unfolding run_step
run_step-KeepsOrder e now epoch i s p c = ground arith

pub step_saved-KeepsOrder :
    (e : Engine) (epoch i : ℕ) (s : Step) (scratch : Run)
    → KeepsOrder e (Thread.step_saving epoch i s scratch) (step_saved epoch i s scratch e)
unfolding step_saved
step_saved-KeepsOrder e epoch i s scratch p c = ground arith

pub emit-KeepsOrder :
    (e : Engine) (codec : Codec) (epoch i : ℕ) (s : Step) (scratch : Run) (ev : Event)
    → KeepsOrder e (Thread.stepping epoch i s scratch) (emit codec epoch i s scratch ev e)
unfolding emit
emit-KeepsOrder e codec epoch i s scratch ev p c = ground arith

pub step_returned-KeepsOrder :
    (e : Engine) (epoch i : ℕ) (s : Step) (scratch scratch' : Run)
    → KeepsOrder e (Thread.stepping epoch i s scratch) (moved e (Thread.merging epoch i s scratch'))
step_returned-KeepsOrder e epoch i s scratch scratch' p c = ground arith

pub step_failed-KeepsOrder :
    (e : Engine) (epoch i : ℕ) (s : Step) (scratch scratch' : Run) (err : StepError)
    → KeepsOrder e (Thread.stepping epoch i s scratch) (step_failed epoch i s scratch' err e)
unfolding step_failed
step_failed-KeepsOrder e epoch i s scratch scratch' err p c = ground arith

pub step_failure-KeepsOrder :
    (e : Engine) (epoch i : ℕ) (s : Step) (scratch : Run) (u k : Bool) (msg : String)
    → KeepsOrder e
        (Thread.step_failing epoch i s scratch u k msg)
        (step_failure epoch i s scratch u k msg e)
unfolding step_failure
step_failure-KeepsOrder e epoch i s scratch u k msg p c = ground arith

pub failure_cleared-KeepsOrder :
    (e : Engine) (epoch i : ℕ) (s : Step) (msg : String)
    → KeepsOrder e (Thread.fail_clearing epoch i s msg) (failure_cleared epoch i s msg e)
unfolding failure_cleared
failure_cleared-KeepsOrder e epoch i s msg p c = ground arith

pub merge_step_success-KeepsOrder :
    (e : Engine) (now epoch i : ℕ) (s : Step) (scratch : Run)
    → KeepsOrder e (Thread.merging epoch i s scratch) (merge_step_success now epoch i s scratch e)
unfolding merge_step_success
merge_step_success-KeepsOrder e now epoch i s scratch p c = ground arith

pub merge_cleared-KeepsOrder :
    (e : Engine) (epoch i : ℕ) (s : Step) (id : String)
    → KeepsOrder e (Thread.merge_clearing epoch i s id) (merge_cleared epoch i s id e)
unfolding merge_cleared
merge_cleared-KeepsOrder e epoch i s id p c = ground arith

pub merge_saved-KeepsOrder :
    (e : Engine) (epoch i : ℕ) (s : Step) (id : String)
    → KeepsOrder e (Thread.merge_saving epoch i s id) (merge_saved epoch i s id e)
unfolding merge_saved
merge_saved-KeepsOrder e epoch i s id p c = ground arith
