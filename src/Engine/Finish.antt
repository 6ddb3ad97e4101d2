-- ===== src/Engine/Finish.antt =====
-- internal/engine: `finish`, and the active action of attribution.go that it clears.
use aicrme.Prelude.{
  ℕ, ◌+◌, ◌%◌, ◌^◌, String, str_append, str_eq, Bool, [], ◌∷◌, Option, none, some, ◌||◌, not,
  if◌then◌else◌,
}
use aicrme.Bus.Event.{Kind, Level}
use aicrme.Engine.Codec.{ComponentMarker}
use aicrme.Engine.Run.{Run, State, unset, is_terminal, state_text}
use aicrme.Engine.State.{
  Engine, Attribution, Thread, After, Moved, moved, ended, publishing, event, level_for, alive,
  close_done,
}

-- `Attribution`: the stored action with the run's identity read off the current run.
unfoldable pub attribution_of : Engine → Attribution
attribution_of e = elim e.current [
  | none ↦ e.attribution
  | some r ↦ record e.attribution { run_id = r.id; phase = r.phase; terminal = is_terminal r.state }
]

abbrev set_action : String → ℕ → ℕ → Attribution → Attribution
set_action name index total a = record a {
  active_action = name;
  active_index = index;
  active_total = total;
  generation = (a.generation + 1) % 2 ^ 64;
}

unfoldable pub set_active_action : ℕ → String → ℕ → ℕ → Engine → Engine
set_active_action epoch name index total e =
    if alive e epoch
    then record e { attribution = set_action name index total e.attribution }
    else e

unfoldable pub clear_active_action : ℕ → Engine → Engine
unfolding set_active_action
clear_active_action epoch e = set_active_action epoch "" 0 0 e

-- `none` is a payload that `json.Unmarshal` refuses.
unfoldable pub apply_component_marker : ℕ → Option ComponentMarker → Engine → Engine
unfolding set_active_action
apply_component_marker epoch none e = e
apply_component_marker epoch (some m) e =
    if str_eq m.name "" || not (str_eq m.status "started")
    then e
    else set_active_action epoch m.name m.index m.total e

-- Where the goroutine goes when `finish` returns.
unfoldable pub after_finish : ℕ → After → Engine → Moved
after_finish epoch After.goroutine_ends e = ended (close_done epoch e)
after_finish epoch After.stop_returns e = moved e Thread.stop_ending
after_finish epoch (After.record_deleted id) e = moved e (Thread.reset_deleting epoch id)
after_finish epoch After.reconcile_goes_on e = ended e

abbrev pub finished_run : ℕ → State → String → Run → Run
finished_run now state msg r = record r { state = state; err = msg; updated_at = now }

unfoldable pub finish_current : ℕ → ℕ → State → String → After → Engine → Option Run → Moved
unfolding after_finish
finish_current now epoch state msg after e none = after_finish epoch after e
finish_current now epoch state msg after e (some r) =
    if alive e epoch
    then moved (record e { current = some (finished_run now state msg r) })
        (Thread.finish_clearing epoch r.id state after)
    else after_finish epoch after e

unfoldable pub finish : ℕ → ℕ → State → String → After → Engine → Moved
unfolding finish_current
finish now epoch state msg after e = finish_current now epoch state msg after e e.current

unfoldable pub finish_cleared : ℕ → String → State → After → Engine → Moved
unfolding clear_active_action
finish_cleared epoch id state after e =
    moved (clear_active_action epoch e) (Thread.finish_saving epoch id state after)

-- The terminal record is saved, or not; either way the run is announced as over.
unfoldable pub finish_saved : Bool → ℕ → String → State → After → Engine → Moved
unfolding after_finish
finish_saved ok epoch id state after e =
    let said = event Kind.phase (level_for state) id unset in
    let over = said (str_append "run " (state_text state)) in
    publishing
      (if ok
        then over ∷ []
        else event Kind.error Level.err id unset
            "run finished but its checkpoint could not be saved; a restart will recover a stale earlier state"
          ∷ over
          ∷ [])
      (after_finish epoch after e)
