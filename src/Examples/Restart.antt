-- ===== src/Examples/Restart.antt =====
-- internal/engine: a restart at concrete inputs.
use aicrme.Prelude.{ℕ, zero, suc, ◌≤◌, ◌≡◌, Bool, true, false, ◌&&◌, [], ltb}
use aicrme.Engine.Run.{Run, resetting, is_live, is_idle, is_failed}
use aicrme.Engine.Recover.{recovered_run, Loaded, loaded, load_failed, internal}
use aicrme.Engine.Recover.Restart.{recovered_run_lem}
use aicrme.Examples.Samples.{the_id, run_in}

abbrev in_reset : Run
in_reset = run_in resetting

recovered_run_lem_example :
    let r' = recovered_run 1 in_reset in
    (is_live r'.state ≡ false)
    × (is_idle r'.state ≡ false)
    × (r'.pending ≡ [])
    × ((is_failed r'.state && ltb 1 r'.step_index) ≡ false)
    × (r'.step_index ≤ 2)
    × (r'.residue.incomplete ≡ true)
    × (r'.id ≡ the_id)
    × (r'.decisions ≡ in_reset.decisions)
    × (r'.components ≡ in_reset.components)
    × (r'.ownership ≡ in_reset.ownership)
    × (r'.workload ≡ in_reset.workload)
    × (r'.cleanup_unconfirmed ≡ false)
recovered_run_lem_example = recovered_run_lem 1 in_reset

-- The store answers at the second attempt.
abbrev answers : ℕ → Loaded
answers zero = load_failed internal
answers (suc n) = loaded in_reset

abbrev in_time : ℕ → Bool
in_time n = false
