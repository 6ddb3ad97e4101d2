-- ===== src/Examples/Reset.antt =====
-- internal/engine: a reconciliation and a reset at concrete inputs.
use aicrme.Prelude.{
  ◌≡◌, inl, refl, true, false, not, ◌&&◌, ◌||◌, if◌then◌else◌, [], ◌∷◌, none, some,
}
use aicrme.Engine.Run.{
  Run, failed, done, resetting, ResidueItem, ItemKind, Ownership, AgentNamespace,
  no_agent_namespace,
}
use aicrme.Engine.State.{Engine, Thread, contains}
use aicrme.Engine.Report.{reset_summary}
use aicrme.Engine.Reconcile.{OwnedWorkload, reconcile}
use aicrme.Engine.Reconcile.Adoption.{reconcile_spares}
use aicrme.Engine.Calls.{start, retry, discard}
use aicrme.Engine.Calls.Guards.{is_accepted}
use aicrme.Engine.Teardown.Unsaved.{unsaved_reset_forgets}
use aicrme.Engine.Teardown.{
  stop, reset, reset_refusal, resetting_run, reset_saved, namespace_residue, any_error,
}
use aicrme.Engine.Teardown.Verdict.{residue_of}
use aicrme.Engine.Store.{MemoryStore, new_memory_store, save, load_current}
use aicrme.Engine.World.ResetEnd.{Answers, pursue_reset}
use aicrme.Engine.World.ResetEnd.Settled.{reset_settles}
use aicrme.Examples.Samples.{the_id, engine_with, run_in, codec}

abbrev workload : OwnedWorkload
workload = record { namespace = "aicrme-prove"; name = "prove-00112233445566ff"; run_id = the_id }

abbrev stray : OwnedWorkload
stray = record { namespace = "aicrme-prove"; name = "prove-other"; run_id = "other" }

reconcile_spares_example :
    let e = engine_with (some (run_in failed)) in
    ((reconcile 300 (some (stray ∷ workload ∷ [])) e).current ≡ some (run_in failed))
    × ((reconcile 300 none e).current ≡ some (run_in failed))
reconcile_spares_example =
    reconcile_spares 300 (stray ∷ workload ∷ []) (engine_with (some (run_in failed)))
      (run_in failed) refl (inl refl)

abbrev release_gone : ResidueItem
release_gone = record {
  kind = ItemKind.release;
  name = "gpu-operator";
  namespace = "gpu";
  removed = true;
  skip = "";
  created = true;
  err = "";
}

abbrev owned : Ownership
owned = record {
  releases = [];
  namespaces = record { name = "gpu"; existed = false; snapshot_err = "" } ∷ [];
}

abbrev owner : Run
owner = let r = run_in resetting in record r { ownership = owned }

abbrev ends_well : Answers
ends_well = record { items = release_gone ∷ []; saved = true; deleted = true }

abbrev one_saved : MemoryStore
one_saved = save owner new_memory_store

reset_settles_example :
    let all = release_gone ∷ namespace_residue owned no_agent_namespace "" in
    let incomplete = contains 1 [] || any_error (release_gone ∷ []) in
    let residue = residue_of incomplete all in
    let last = record owner {
      state = if incomplete then failed else done;
      err = if incomplete then reset_summary codec residue else "";
      residue = residue;
      updated_at = 300;
    } in
    let end =
      pursue_reset codec 300 ends_well 8
        (Thread.reset_removing 1 the_id owner)
        (engine_with (some owner))
        one_saved in
    (end.2 ≡ none)
    × (end.0.current ≡ some last)
    × (load_current end.1 ≡ (if not incomplete && true then none else some last))
reset_settles_example =
    reset_settles codec 300 1 ends_well (engine_with (some owner)) owner one_saved refl refl refl

abbrev agent : AgentNamespace
agent = record { name = "aicr-agent"; uid = "uid-2"; created = true }

-- A run that a first reset has left half removed.
abbrev half_removed : Run
half_removed = let r = run_in failed in record r { residue = residue_of true [] }

abbrev begun : Engine
begun =
    record (engine_with (
      some (record half_removed {
        state = resetting;
        err = "";
        residue = residue_of false [];
        updated_at = 300;
      }))) { epoch = 2; cancel = some 2 }

unsaved_reset_forgets_example :
    let e'' = (reset_saved false 310 2 the_id begun).engine in
    (is_accepted (start 400 "ffeeddccbbaa0099" e'') ≡ true)
    × (is_accepted (retry 400 the_id e'') ≡ true)
    × (is_accepted (discard the_id e'') ≡ true)
    × (is_accepted (stop the_id e'') ≡ false)
unfolding reset reset_refusal resetting_run
unsaved_reset_forgets_example =
    unsaved_reset_forgets 300 310 400 "ffeeddccbbaa0099" the_id (engine_with (some half_removed))
      begun half_removed 2 the_id refl refl refl refl
