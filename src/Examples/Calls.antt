-- ===== src/Examples/Calls.antt =====
-- internal/engine: the calls at concrete inputs.
use aicrme.Prelude.{◌≡◌, ◌↔◌, refl, String, true, false, List, [], ◌∷◌, some, has_key, member}
use aicrme.Engine.Run.{Run, running, failed, awaiting_decision}
use aicrme.Engine.State.{Thread}
use aicrme.Engine.Calls.{start, retry, decide, decided, discard}
use aicrme.Engine.Execute.{await_decisions, parked_run}
use aicrme.Engine.Calls.Guards.{is_accepted, owed_teardown_blocks}
use aicrme.Engine.Calls.Answers.{decide-accepts_iff}
use aicrme.Engine.Calls.Unblock.{decide-unblocks}
use aicrme.Examples.Samples.{the_id, engine_with, run_in, asking_step}

abbrev half_reset : Run
half_reset =
    let r = run_in failed in record r { residue = record { incomplete = true; items = [] } }

owed_teardown_blocks_example :
    (is_accepted (start 300 the_id (engine_with (some half_reset))) ≡ false)
    × (is_accepted (retry 300 the_id (engine_with (some half_reset))) ≡ false)
    × (is_accepted (discard the_id (engine_with (some half_reset))) ≡ false)
owed_teardown_blocks_example =
    owed_teardown_blocks 300 the_id (engine_with (some half_reset)) half_reset refl refl

abbrev unclean : Run
unclean = let r = run_in failed in record r { cleanup_unconfirmed = true }

abbrev waiting : Run
waiting = let r = run_in awaiting_decision in record r { pending = "accelerator" ∷ [] }

abbrev chosen : List (String × String)
chosen = ("accelerator", "h100") ∷ []

decide-accepts_iff_example :
    (is_accepted (decide 300 the_id chosen (engine_with (some waiting))) ≡ true)
    ↔ ((j : String) → member j ("accelerator" ∷ []) ≡ has_key j chosen)
decide-accepts_iff_example =
    decide-accepts_iff 300 the_id chosen (engine_with (some waiting)) waiting refl refl refl

-- The run that waits in `parked` goes on with both decisions.
abbrev parked : Run
parked = parked_run 250 asking_step ("accelerator" ∷ []) (run_in running)

decide-unblocks_example :
    (await_decisions 350 1 1 asking_step (engine_with (some (decided 300 chosen parked)))).next
    ≡ some (Thread.step_beginning 1 1 asking_step)
unfolding decide await_decisions
decide-unblocks_example =
    decide-unblocks 250 300 350 1 1 asking_step the_id chosen (engine_with (some (run_in running)))
      (engine_with (some (decided 300 chosen parked))) (run_in running)
      (Thread.decide_saving 1 the_id parked) refl refl refl refl

abbrev crashed : Run
crashed = let r = run_in failed in record r { err = "no such host" }
