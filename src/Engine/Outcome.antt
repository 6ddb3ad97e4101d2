-- ===== src/Engine/Outcome.antt =====
-- internal/engine/engine.go: how a step of a run ends, in `runStep` and `mergeStepSuccess`.
use aicrme.Prelude.{
  ℕ, suc, String, str_append, Bool, true, false, [], ◌∷◌, Option, none, some, if◌then◌else◌,
  assign_all,
}
use aicrme.Bus.Event.{Kind, Level}
use aicrme.Engine.Run.{Run, failed, is_apply, phase_text}
use aicrme.Engine.State.{Engine, Step, Thread, After, Moved, moved, publishing, event, alive}
use aicrme.Engine.Finish.{clear_active_action}
use aicrme.Engine.Execute.{canceled_by_shutdown}

-- What `errors.Is` finds in the error of a step, and its text.
pub record StepError : Type 0 where
  pub canceled : Bool
  pub unconfirmed : Bool
  pub confirmed : Bool
  pub text : String

-- `step.Run` returned an error and left `scratch`.
unfoldable pub step_failed : ℕ → ℕ → Step → Run → StepError → Engine → Moved
step_failed epoch i s scratch err e =
    let msg = if err.canceled then canceled_by_shutdown else err.text in
    publishing (event Kind.error Level.err scratch.id (s.phase) msg ∷ [])
      (moved e (Thread.step_failing epoch i s scratch err.unconfirmed err.confirmed msg))

-- The fields of a failed step that are kept, and the cleanup flag, which moves on evidence only.
abbrev pub failed_step_run : Run → Bool → Bool → Run → Run
failed_step_run scratch unconfirmed confirmed r = record r {
  components = scratch.components;
  ownership = scratch.ownership;
  agent_namespace = scratch.agent_namespace;
  cleanup_unconfirmed =
      if unconfirmed then true else if confirmed then false else r.cleanup_unconfirmed;
}

record_failure : Run → Bool → Bool → Option Run → Option Run
record_failure scratch unconfirmed confirmed none = none
record_failure scratch unconfirmed confirmed (some r) =
    some (failed_step_run scratch unconfirmed confirmed r)

unfoldable pub step_failure : ℕ → ℕ → Step → Run → Bool → Bool → String → Engine → Moved
unfolding record_failure
step_failure epoch i s scratch unconfirmed confirmed msg e =
    if alive e epoch
    then elim e.current [
      | none ↦ moved e (Thread.panicked epoch)
      | some r ↦
          moved (record e { current = record_failure scratch unconfirmed confirmed e.current })
            (Thread.fail_clearing epoch i s msg)
    ]
    else moved e (Thread.fail_clearing epoch i s msg)

unfoldable pub failure_cleared : ℕ → ℕ → Step → String → Engine → Moved
unfolding clear_active_action
failure_cleared epoch i s msg e =
    moved (if is_apply (s.phase) then clear_active_action epoch e else e)
      (Thread.finishing epoch failed msg After.goroutine_ends)

-- `mergeStepSuccess` on the run.
unfoldable pub merged_run : ℕ → ℕ → Run → Run → Run
unfolding assign_all
merged_run now i scratch r = record r {
  artifacts = assign_all scratch.artifacts r.artifacts;
  decisions = assign_all scratch.decisions r.decisions;
  components = scratch.components;
  workload = scratch.workload;
  ownership = scratch.ownership;
  agent_namespace = scratch.agent_namespace;
  validation = scratch.validation;
  step_index = suc i;
  updated_at = now;
}

-- Without the epoch `runStep` returns nil and `execute` loops.
unfoldable pub merge_step_success : ℕ → ℕ → ℕ → Step → Run → Engine → Moved
unfolding merged_run
merge_step_success now epoch i s scratch e =
    if alive e epoch
    then elim e.current [
      | none ↦ moved e (Thread.panicked epoch)
      | some r ↦
          moved (record e { current = some (merged_run now i scratch r) })
            (Thread.merge_clearing epoch i s r.id)
    ]
    else moved e (Thread.executing epoch)

unfoldable pub merge_cleared : ℕ → ℕ → Step → String → Engine → Moved
unfolding clear_active_action
merge_cleared epoch i s id e =
    moved (if is_apply (s.phase) then clear_active_action epoch e else e)
      (Thread.merge_saving epoch i s id)

unfoldable pub merge_saved : ℕ → ℕ → Step → String → Engine → Moved
merge_saved epoch i s id e =
    publishing
      (event Kind.phase Level.unset id (s.phase)
          (str_append (phase_text (s.phase)) " phase complete")
        ∷ [])
      (moved e (Thread.executing epoch))
