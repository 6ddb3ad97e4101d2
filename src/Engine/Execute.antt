-- ===== src/Engine/Execute.antt =====
-- internal/engine/engine.go: `execute`, `awaitDecisions`, `runStep` and `mergeStepSuccess`, the
-- goroutine that drives a run through its steps, one section at a time.
use aicrme.Prelude.{
  ℕ, suc, String, str_eq, str_append, List, [], ◌∷◌, Option, none, some, leb, if◌then◌else◌, length,
  find, has_key,
}
use aicrme.Bus.Event.{Event, Kind, Level}
use aicrme.Engine.Run.{
  Run, State, running, awaiting_decision, failed, active, done, Phase, phase_text,
}
use aicrme.Engine.State.{
  Engine, Step, Thread, After, Moved, moved, ended, publishing, event, alive, contains, without,
  close_done,
}
use aicrme.Engine.Codec.{Codec}
use aicrme.Engine.Finish.{apply_component_marker}

unfoldable pub step_at : ℕ → List Step → Option Step
step_at i [] = none
step_at i (s ∷ steps) = elim i [ ℕ.zero ↦ some s | suc j ↦ step_at j steps ]

-- Everything in `execute` after the read of `StepIndex`: the loop's exit, with the terminal state, or
-- the next step.
unfoldable pub terminal_state : List Step → State
terminal_state [] = done
terminal_state (s ∷ []) = if s.leaves_running then active else done
terminal_state (s ∷ t ∷ steps) = terminal_state (t ∷ steps)

-- `e.steps[i]` out of range panics in Go, and so does a read through a nil `e.current`.
unfoldable pub execute : ℕ → Engine → Moved
unfolding terminal_state step_at
execute epoch e =
    if alive e epoch
    then elim e.current [
      | none ↦ moved e (Thread.panicked epoch)
      | some r ↦
          if leb (length e.steps) r.step_index
          then moved e (Thread.finishing epoch (terminal_state e.steps) "" After.goroutine_ends)
          else elim (step_at r.step_index e.steps) [
            | none ↦ moved e (Thread.panicked epoch)
            | some s ↦ moved e (Thread.checking epoch r.step_index s)
          ]
    ]
    else ended (close_done epoch e)

unfoldable pub missing : List String → List (String × String) → List String
unfolding find
missing [] decisions = []
missing (k ∷ keys) decisions =
    let rest = missing keys decisions in if has_key k decisions then rest else k ∷ rest

abbrev pub parked_run : ℕ → Step → List String → Run → Run
parked_run now s keys r = record r {
  pending = keys;
  state = awaiting_decision;
  phase = s.phase;
  updated_at = now;
}

unfoldable pub check_keys : ℕ → ℕ → ℕ → Step → Run → List String → Engine → Moved
check_keys now epoch i s r [] e = moved e (Thread.step_beginning epoch i s)
check_keys now epoch i s r (k ∷ keys) e =
    moved (record e { current = some (parked_run now s (k ∷ keys) r) })
      (Thread.await_saving epoch i s e.resume r.id)

-- The section of `awaitDecisions`, for the step `s` that stands at `i`.
unfoldable pub check_step : ℕ → ℕ → ℕ → Step → Engine → Option Run → Moved
unfolding check_keys missing
check_step now epoch i s e none = moved e (Thread.panicked epoch)
check_step now epoch i s e (some r) = check_keys now epoch i s r (missing s.requires r.decisions) e

unfoldable pub await_decisions : ℕ → ℕ → ℕ → Step → Engine → Moved
unfolding check_step
await_decisions now epoch i s e =
    if alive e epoch then check_step now epoch i s e e.current else ended (close_done epoch e)

-- The checkpoint's outcome is only logged; then the console is told and the goroutine waits.
unfoldable pub await_saved : ℕ → ℕ → Step → ℕ → String → Engine → Moved
await_saved epoch i s channel id e =
    publishing (event Kind.decision Level.unset id (s.phase) "awaiting decision" ∷ [])
      (moved e (Thread.awaiting epoch i s channel))

-- `case <-resume`
unfoldable pub resumed : ℕ → ℕ → Step → ℕ → Engine → Moved
resumed epoch i s channel e =
    if contains channel e.signals
    then moved (record e { signals = without channel e.signals }) (Thread.checking epoch i s)
    else moved e (Thread.awaiting epoch i s channel)

abbrev pub canceled_by_shutdown : String
canceled_by_shutdown = "canceled: console shutting down"

-- `case <-ctx.Done()`
unfoldable pub await_canceled : ℕ → ℕ → Step → ℕ → Engine → Moved
await_canceled epoch i s channel e =
    if contains epoch e.canceled
    then moved e (Thread.finishing epoch failed canceled_by_shutdown After.goroutine_ends)
    else moved e (Thread.awaiting epoch i s channel)

abbrev pub stepping_run : ℕ → Phase → Run → Run
stepping_run now phase r = record r { phase = phase; state = running; updated_at = now }

begin_step : ℕ → ℕ → ℕ → Step → Engine → Option Run → Moved
begin_step now epoch i s e none = moved e (Thread.panicked epoch)
begin_step now epoch i s e (some r) =
    let r' = stepping_run now (s.phase) r in
    moved (record e { current = some r' }) (Thread.step_saving epoch i s r')

-- The first section of `runStep`. Without the epoch it returns nil and `execute` loops.
unfoldable pub run_step : ℕ → ℕ → ℕ → Step → Engine → Moved
unfolding begin_step
run_step now epoch i s e =
    if alive e epoch then begin_step now epoch i s e e.current else moved e (Thread.executing epoch)

unfoldable pub step_saved : ℕ → ℕ → Step → Run → Engine → Moved
step_saved epoch i s scratch e =
    publishing
      (event Kind.phase Level.unset scratch.id (s.phase)
          (str_append (phase_text (s.phase)) " phase started")
        ∷ [])
      (moved e (Thread.stepping epoch i s scratch))

-- The `emit` that a step is given, with `ev` as the step made it.
unfoldable pub emit : Codec → ℕ → ℕ → Step → Run → Event → Engine → Moved
unfolding apply_component_marker
emit codec epoch i s scratch ev e =
    let ev' = record ev {
      run_id = scratch.id;
      phase = if str_eq ev.phase "" then phase_text (s.phase) else ev.phase;
    } in
    publishing (ev' ∷ []) (
      moved
        (elim ev.kind [
          | Kind.component ↦ apply_component_marker epoch (codec.read_marker ev.body) e
          | _ ↦ e
        ])
        (Thread.stepping epoch i s scratch))
