-- ===== src/Examples/Schedule.antt =====
-- internal/engine: schedules of goroutines.
use aicrme.Prelude.{◌≡◌, refl, true, false, if◌then◌else◌, List, [], ◌∷◌, none, some, arith, All}
use aicrme.Engine.Run.{running, failed}
use aicrme.Engine.State.{Thread, After, live}
use aicrme.Engine.World.{
  World, step, runs, stored, advance, start_run, Action, calls, moves, cancels, run,
}
use aicrme.Engine.World.Owner.{owners}
use aicrme.Engine.World.Owner.Reach.{at_rest, single_owner, is_panicked, never_panics}
use aicrme.Prelude.{find}
use aicrme.Engine.Execute.{missing}
use aicrme.Engine.Run.{Run}
use aicrme.Engine.State.{Step}
use aicrme.Engine.World.Progress.{IsOver, pursue, kind_goroutine_ends}
use aicrme.Engine.World.Drain.{draining_is_final}
use aicrme.Engine.World.Stale.{Untouched, advance-stale}
use aicrme.Examples.Samples.{the_id, engine_with, run_in, codec}

-- A run is started and saved, is refused a second start, and begins its first step.
abbrev schedule : List Action
schedule =
    calls 300 (start_run the_id)
    ∷ moves 301 0 (stored true)
    ∷ calls 302 (start_run "ffeeddccbbaa0099")
    ∷ moves 303 0 runs
    ∷ moves 304 0 runs
    ∷ moves 305 0 runs
    ∷ cancels
    ∷ []

single_owner_example :
    let w = run codec (at_rest (engine_with none)) schedule in
    owners w.engine.epoch w.threads ≡ (if live w.engine.current then 1 else 0)
single_owner_example = single_owner codec (engine_with none) schedule refl (omega arith)

never_panics_example :
    All (λ t. is_panicked t ≡ false) (run codec (at_rest (engine_with none)) schedule).threads
never_panics_example = never_panics codec (engine_with none) schedule refl (omega arith)

-- A finish in the name of an epoch that has passed.
advance-stale_example :
    let e = engine_with (some (run_in running)) in
    Untouched e (advance codec 300 runs (Thread.finishing 0 failed "late" After.goroutine_ends) e)
advance-stale_example =
    advance-stale codec 300 runs (Thread.finishing 0 failed "late" After.goroutine_ends)
      (engine_with (some (run_in running))) refl

abbrev draining : World
draining = run codec (at_rest (engine_with none)) schedule

draining_is_final_example :
    let w' = run codec draining (calls 400 (start_run the_id) ∷ moves 401 0 runs ∷ []) in
    (w'.engine.draining ≡ true) × (w'.engine.epoch ≡ draining.engine.epoch)
unfolding run step
draining_is_final_example =
    draining_is_final codec draining (calls 400 (start_run the_id) ∷ moves 401 0 runs ∷ []) refl

-- The steps of `schedule` by themselves: each returns with an artifact more, and every save fails.
abbrev answered : Run
answered = record (run_in running) {
  decisions = ("accelerator", "h100") ∷ ("os", "ubuntu") ∷ [];
  step_index = 0;
}

abbrev work : Step → Run → Run
work s r = record r { artifacts = ("log", "text") ∷ r.artifacts; decisions = [] }

no_more_decisions :
    All (λ s. missing s.requires answered.decisions ≡ []) (engine_with (some answered)).steps
unfolding missing find
no_more_decisions = (refl, (refl, (refl, tt)))

kind_goroutine_ends_example :
    let e = engine_with (some answered) in
    IsOver e.epoch the_id e.steps
      (pursue codec 300 work (λ n. false) 28 (Thread.executing e.epoch) e)
kind_goroutine_ends_example =
    kind_goroutine_ends codec 300 work (λ n. false) 28 (engine_with (some answered)).epoch
      (engine_with (some answered)) answered refl refl no_more_decisions (omega arith)
