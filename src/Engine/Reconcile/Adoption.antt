-- ===== src/Engine/Reconcile/Adoption.antt =====
-- internal/engine/reconcile.go: what startup makes of the workloads that the cluster holds.
use aicrme.Prelude.{
  ℕ, String, Bool, true, false, List, [], ◌∷◌, Option, none, some, arith, ◌≡◌, refl, if◌then◌else◌,
  ◌⊎◌,
}
use aicrme.Engine.Run.{Run, done, is_active}
use aicrme.Engine.State.{Engine}
use aicrme.Engine.Finish.{finish, finish_cleared}
use aicrme.Engine.Reconcile.{
  OwnedWorkload, matches_run, workload_present, adoptable, adopted_run, adopt, adopt_loop,
  end_if_gone, reconcile, adopt_events, adopt_loop_events, reconcile_events, current_events,
}

adopt_loop-keeps :
    (now : ℕ) (owned : List OwnedWorkload) (id : String) (e : Engine) (r : Run)
    → e.current ≡ some r
    → (adopt_loop now id owned e).current ≡ some r
unfolding adopt_loop adopt
adopt_loop-keeps now [] id e r h = h
adopt_loop-keeps now (w ∷ owned) id e r h = adopt_loop-keeps now owned _ _ r (ground arith)

-- A run that is not active, or whose workload is in the listing, is as it was after the
-- reconciliation: no listing and no failure to list replaces it.
pub reconcile_spares :
    (now : ℕ) (owned : List OwnedWorkload) (e : Engine) (r : Run)
    → e.current ≡ some r
    → (is_active r.state ≡ false) ⊎ (workload_present owned r.id ≡ true)
    → ((reconcile now (some owned) e).current ≡ some r) × ((reconcile now none e).current ≡ some r)
unfolding reconcile end_if_gone
reconcile_spares now owned e r h k = (adopt_loop-keeps now owned _ _ r (ground arith), h)

-- An active run whose workload is not in the listing is done, and otherwise as it was.
pub reconcile_ends :
    (now : ℕ) (owned : List OwnedWorkload) (e : Engine) (r : Run)
    → e.current ≡ some r
    → is_active r.state ≡ true
    → workload_present owned r.id ≡ false
    → (reconcile now (some owned) e).current
      ≡ some (record r { state = done; err = ""; updated_at = now })
unfolding reconcile end_if_gone finish finish_cleared
reconcile_ends now owned e r h k l = adopt_loop-keeps now owned _ _ _ (ground arith)

abbrev pub first_adoptable : List OwnedWorkload → Option OwnedWorkload
first_adoptable [] = none
first_adoptable (w ∷ owned) = if adoptable w then some w else first_adoptable owned

adopt_loop-first :
    (now : ℕ) (owned : List OwnedWorkload) (e : Engine)
    → e.current ≡ none
    → (adopt_loop now "" owned e).current
      ≡ (elim (first_adoptable owned) [ none ↦ none | some w ↦ some (adopted_run now e w) ])
unfolding adopt_loop adopt matches_run
adopt_loop-first now [] e h = h
adopt_loop-first now (w ∷ owned) e h = ground (
  arith,
  adopt_loop-first now owned e,
  adopt_loop-keeps now owned w.run_id (record e { current = some (adopted_run now e w) })
      (adopted_run now e w) refl,
)

-- Without a run, the first workload of the listing whose label is a run's identifier and whose name is
-- made from it becomes the run, active in its last phase; without such a workload there is still none.
pub reconcile_adopts :
    (now : ℕ) (owned : List OwnedWorkload) (e : Engine)
    → e.current ≡ none
    → (reconcile now (some owned) e).current
      ≡ (elim (first_adoptable owned) [ none ↦ none | some w ↦ some (adopted_run now e w) ])
unfolding reconcile end_if_gone
reconcile_adopts now owned e h = ground (arith, adopt_loop-first now owned e)

adopt_loop_events-none :
    (now : ℕ) (owned : List OwnedWorkload) (id : String) (e : Engine) (r : Run)
    → e.current ≡ some r
    → adopt_loop_events now id owned e ≡ []
unfolding adopt_loop_events adopt adopt_events
adopt_loop_events-none now [] id e r h = refl
adopt_loop_events-none now (w ∷ owned) id e r h = ground (
  arith,
  h,
  adopt_loop_events-none now owned id e r,
  adopt_loop_events-none now owned w.run_id e r,
)

adopt_loop_events-first :
    (now : ℕ) (owned : List OwnedWorkload) (e : Engine)
    → e.current ≡ none
    → adopt_loop_events now "" owned e
      ≡ (elim (first_adoptable owned) [ none ↦ [] | some w ↦ adopt_events w none ])
unfolding adopt_loop_events adopt matches_run adopt_events
adopt_loop_events-first now [] e h = refl
adopt_loop_events-first now (w ∷ owned) e h = ground (
  arith,
  h,
  adopt_loop_events-first now owned e,
  adopt_loop_events-none now owned w.run_id (record e { current = some (adopted_run now e w) })
      (adopted_run now e w) refl,
)

-- Without a run, an adoption is told exactly when there is one, and nothing else is.
reconcile_events_lem :
    (ok : Bool) (now : ℕ) (owned : List OwnedWorkload) (e : Engine)
    → e.current ≡ none
    → reconcile_events ok now (some owned) e
      ≡ (elim (first_adoptable owned) [ none ↦ [] | some w ↦ adopt_events w none ])
unfolding reconcile_events end_if_gone current_events
reconcile_events_lem ok now owned e h = ground (arith, h, adopt_loop_events-first now owned e)
