-- ===== src/Engine/Reconcile.antt =====
-- internal/engine/reconcile.go: `ReconcileWorkloads`, which compares the engine with the reference
-- workloads that the cluster holds.
pub mod Adoption
use aicrme.Prelude.{
  ℕ, String, str_append, str_eq, Bool, false, not, ◌&&◌, ◌||◌, List, [], ◌∷◌, ◌++◌, Option, none,
  some, if◌then◌else◌, length,
}
use aicrme.Bus.Event.{Event, Kind, Level}
use aicrme.Engine.Run.{Run, active, done, prove, zero_run, is_active, state_text}
use aicrme.Engine.State.{Engine, After, event, level_for}
use aicrme.Engine.Finish.{finish, finish_cleared, finish_saved}
use aicrme.Engine.Recover.{valid_run_id}

-- `prove.OwnedWorkload`
pub record OwnedWorkload : Type 0 where
  pub namespace : String
  pub name : String
  pub run_id : String

-- `prove.WorkloadName`
abbrev pub workload_name : String → String
workload_name id = str_append "prove-" id

unfoldable pub matches_run : OwnedWorkload → String → Bool
matches_run w id = not (str_eq id "") && (str_eq w.run_id id || str_eq w.name (workload_name id))

unfoldable pub workload_present : List OwnedWorkload → String → Bool
unfolding matches_run
workload_present [] id = false
workload_present (w ∷ owned) id = matches_run w id || workload_present owned id

unfoldable pub adoptable : OwnedWorkload → Bool
adoptable w = valid_run_id w.run_id && str_eq (workload_name w.run_id) w.name

abbrev pub adopted_run : ℕ → Engine → OwnedWorkload → Run
adopted_run now e w = record zero_run {
  id = w.run_id;
  state = active;
  phase = prove;
  step_index = length e.steps;
  workload = record { namespace = w.namespace; kind = "Job"; name = w.name };
  started_at = now;
  updated_at = now;
}

-- The section of `adopt`: a run that is there is never replaced.
unfoldable pub adopt : ℕ → OwnedWorkload → Engine → Engine
adopt now w e = elim e.current [
  | none ↦ record e { current = some (adopted_run now e w) }
  | some r ↦ e
]

abbrev pub current_id : Option Run → String
current_id none = ""
current_id (some r) = r.id

abbrev pub current_active : Option Run → Bool
current_active none = false
current_active (some r) = is_active r.state

-- The loop over the workloads, in the order in which `sort.Slice` puts them by name; `id` is `curID`.
unfoldable pub adopt_loop : ℕ → String → List OwnedWorkload → Engine → Engine
unfolding matches_run adoptable adopt
adopt_loop now id [] e = e
adopt_loop now id (w ∷ owned) e =
    let fits = not (matches_run w id) && str_eq id "" && adoptable w in
    adopt_loop now (if fits then w.run_id else id) owned (if fits then adopt now w e else e)

-- An active run whose workload is gone is over: the `finish` that `ReconcileWorkloads` calls, whose save
-- changes nothing here.
unfoldable pub end_if_gone : ℕ → List OwnedWorkload → Engine → Engine
unfolding workload_present
end_if_gone now owned e =
    let ended = (finish now e.epoch done "" After.reconcile_goes_on e).engine in
    let id = current_id e.current in
    if current_active e.current && not (workload_present owned id)
    then (finish_cleared e.epoch id done After.reconcile_goes_on ended).engine
    else e

-- With no other goroutine at work, as at startup. `none` is a listing that failed.
unfoldable pub reconcile : ℕ → Option (List OwnedWorkload) → Engine → Engine
unfolding end_if_gone adopt_loop
reconcile now none e = e
reconcile now (some owned) e = adopt_loop now (current_id e.current) owned (end_if_gone now owned e)

abbrev workload_still_running_msg : String
workload_still_running_msg = "the reference workload from the previous session is still running"

abbrev workload_gone_msg : String
workload_gone_msg =
    "the reference workload this run left is no longer in the cluster; the run has ended"

abbrev workload_adopted_msg : String
workload_adopted_msg =
    "found a reference workload from an earlier session and adopted it; Stop is the only way to end it"

-- What is published of the run that is there, before the adoption; `ok` is whether `finish` could save.
unfoldable pub current_events : Bool → List OwnedWorkload → Engine → Option Run → List Event
unfolding workload_present finish_saved
current_events ok owned e none = []
current_events ok owned e (some r) =
    let present = workload_present owned r.id in
    if is_active r.state && present
    then event Kind.log Level.info r.id r.phase workload_still_running_msg ∷ []
    else if is_active r.state
    then event Kind.log Level.info r.id r.phase workload_gone_msg
      ∷ (finish_saved ok e.epoch r.id done After.reconcile_goes_on e).events
    else if present
    then event Kind.log Level.warn r.id r.phase workload_still_running_msg ∷ []
    else []

-- What `adopt` publishes.
unfoldable pub adopt_events : OwnedWorkload → Option Run → List Event
adopt_events w (some r) = []
adopt_events w none =
    event Kind.log Level.warn w.run_id prove workload_adopted_msg
    ∷ event Kind.phase (level_for active) w.run_id prove (str_append "run " (state_text active))
    ∷ []

unfoldable pub adopt_loop_events : ℕ → String → List OwnedWorkload → Engine → List Event
unfolding matches_run adoptable adopt adopt_events
adopt_loop_events now id [] e = []
adopt_loop_events now id (w ∷ owned) e =
    let fits = not (matches_run w id) && str_eq id "" && adoptable w in
    (if fits then adopt_events w e.current else [])
    ++ adopt_loop_events now (if fits then w.run_id else id) owned
        (if fits then adopt now w e else e)

unfoldable pub reconcile_events : Bool → ℕ → Option (List OwnedWorkload) → Engine → List Event
unfolding end_if_gone current_events adopt_loop_events
reconcile_events ok now none e = []
reconcile_events ok now (some owned) e =
    current_events ok owned e e.current
    ++ adopt_loop_events now (current_id e.current) owned (end_if_gone now owned e)
