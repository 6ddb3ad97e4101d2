-- ===== src/Steps/Apply/Refusal.antt =====
-- internal/steps/apply.go with internal/engine: the install that is refused over an earlier one.
use aicrme.Prelude.{
  ℕ, ◌≡◌, refl, ap, ◌≢◌, inl, inr, String, str_eq, eq_iff, true, false, List, [], ◌∷◌, Option, some,
  arith,
}
use aicrme.Engine.Run.{Run, ReleaseRef, running, failed, is_failed, has_incomplete_teardown}
use aicrme.Engine.State.{Engine, Step, Thread, After, accepted, alive}
use aicrme.Engine.Outcome.{step_failure, failed_step_run}
use aicrme.Engine.Finish.{finish, finished_run}
use aicrme.Engine.World.Owner.Single.{Answer-cases}
use aicrme.Engine.Calls.{retry}
use aicrme.Steps.Ownership.{
  Cluster, RecipeComponent, snapshot_ownership, snapshot_each, sort_names, compact,
  already_installed, unsnapshotted, recipe_namespaces, recipe_release_names,
}
use aicrme.Steps.Apply.{
  clashes, installs, begin_apply, begin_first, unless_clash, bundle_path, is_first,
}

no_releases :
    (cluster : Option Cluster) (names : List String)
    → is_first (snapshot_each cluster names) ≡ true
    → (snapshot_each cluster names).releases ≡ []
unfolding snapshot_each
no_releases cluster [] h = refl
no_releases cluster (a ∷ names) h = ground arith

with_evidence :
    (cluster : Option Cluster) (namespaces : List String)
    → (snapshot_ownership cluster namespaces).releases ≢ []
    → is_first (snapshot_ownership cluster namespaces) ≡ false
unfolding snapshot_ownership
with_evidence cluster namespaces h =
    ground (arith, h, no_releases cluster (compact (sort_names namespaces)))

clashed :
    (r r' : Run) (clash found : List ReleaseRef)
    → unless_clash r found ≡ clashes r' clash
    → (r' ≡ r) × (found ≢ [])
unfolding unless_clash
clashed r r' clash [] h = ground arith
clashed r r' clash (x ∷ found) h = ground arith

first_clash :
    (names : List String) (r r' : Run) (clash : List ReleaseRef)
    → begin_first names r ≡ clashes r' clash
    → (r' ≡ r) × (r.ownership.releases ≢ [])
unfolding begin_first already_installed
first_clash names r r' clash h =
    let (same, some_found) = clashed r r' clash (already_installed r.ownership.releases names) h in
    (same, λ e. some_found (ap (λ refs. already_installed refs names) e))

abbrev pub observed : Option Cluster → Option (List RecipeComponent) → Run → Run
observed cluster recipe r = record r {
  ownership = snapshot_ownership cluster (recipe_namespaces recipe);
}

observed_first :
    (cluster : Option Cluster) (recipe : Option (List RecipeComponent)) (r r' : Run)
    (clash : List ReleaseRef)
    → begin_apply cluster recipe r ≡ clashes r' clash
    → (begin_first (recipe_release_names recipe) (observed cluster recipe r) ≡ clashes r' clash)
      × (str_eq (bundle_path r) "" ≡ false)
unfolding begin_apply
observed_first cluster recipe r r' clash h = ground arith

-- A refusal leaves evidence on the run.
refused :
    (cluster : Option Cluster) (recipe : Option (List RecipeComponent)) (r r' : Run)
    (clash : List ReleaseRef)
    → begin_apply cluster recipe r ≡ clashes r' clash
    → (is_first r'.ownership ≡ false) × (str_eq (bundle_path r) "" ≡ false)
refused cluster recipe r r' clash h =
    let (first, path) = observed_first cluster recipe r r' clash h in
    let (same, found) =
      first_clash (recipe_release_names recipe) (observed cluster recipe r) r' clash first in
    (ground (arith, same, found, with_evidence cluster (recipe_namespaces recipe)), path)

-- The run after the failed step, its end and an accepted `Retry`.
abbrev retried : ℕ → ℕ → String → Run → Run → Run
retried later now msg r r' =
    record (finished_run later failed msg (failed_step_run r' false false r)) {
      state = running;
      err = "";
      updated_at = now;
    }

abbrev pub ends_failed : ℕ → ℕ → ℕ → Step → Run → String → Engine → Engine
ends_failed later epoch i s r' msg e =
    (finish later epoch failed msg After.goroutine_ends
      (step_failure epoch i s r' false false msg e).engine).engine

failed_current :
    (later epoch i : ℕ) (s : Step) (r r' : Run) (msg : String) (e : Engine)
    → e.current ≡ some r
    → alive e epoch ≡ true
    → e.draining ≡ false
    → let e' = ends_failed later epoch i s r' msg e in
      (e'.current ≡ some (finished_run later failed msg (failed_step_run r' false false r)))
      × (e'.draining ≡ false)
unfolding step_failure finish
failed_current later epoch i s r r' msg e h a d = ground arith

retry_taken :
    (now : ℕ) (e : Engine) (r : Run)
    → e.current ≡ some r
    → e.draining ≡ false
    → is_failed r.state ≡ true
    → r.residue.incomplete ≡ false
    → (e' : Engine) × (t : Thread) × (retry now r.id e ≡ accepted e' t)
      × (e'.current ≡ some (record r { state = running; err = ""; updated_at = now }))
unfolding retry has_incomplete_teardown
retry_taken now e r h d f q = elim (Answer-cases (retry now r.id e)) [
  | inl (x, k) ↦ absurd (ground (arith, k, eq_iff r.id r.id))
  | inr (e', t, k) ↦ (e', t, k, ground (arith, k, eq_iff r.id r.id))
]

retried_installs :
    (cluster : Option Cluster) (recipe : Option (List RecipeComponent)) (later now : ℕ)
    (msg : String) (r r' : Run)
    → is_first r'.ownership ≡ false
    → str_eq (bundle_path r) "" ≡ false
    → begin_apply cluster recipe (retried later now msg r r')
      ≡ installs (retried later now msg r r') (unsnapshotted r'.ownership.namespaces)
unfolding begin_apply
retried_installs cluster recipe later now msg r r' h p = rw (h, p) refl

-- An install that is refused, since a release that it cannot install over is there, is not refused
-- again: once the step has failed, the run has ended and `Retry` is accepted, as it is then, the same
-- step installs, whatever the cluster holds.
pub retry_installs_over :
    (cluster now_there : Option Cluster) (recipe : Option (List RecipeComponent)) (r r' : Run)
    (clash : List ReleaseRef) (later now epoch i : ℕ) (s : Step) (msg : String) (e : Engine)
    → begin_apply cluster recipe r ≡ clashes r' clash
    → e.current ≡ some r
    → alive e epoch ≡ true
    → e.draining ≡ false
    → r.residue.incomplete ≡ false
    → (e' : Engine) × (t : Thread) × (again : Run) × (retry now r.id
          (ends_failed later epoch i s r' msg e)
        ≡ accepted e' t)
      × (e'.current ≡ some again)
      × (begin_apply now_there recipe again
          ≡ installs again (unsnapshotted again.ownership.namespaces))
retry_installs_over cluster now_there recipe r r' clash later now epoch i s msg e h c a d q =
    let (first, path) = refused cluster recipe r r' clash h in
    let (current, undrained) = failed_current later epoch i s r r' msg e c a d in
    let (e', t, taken, running_again) =
      retry_taken now (ends_failed later epoch i s r' msg e)
        (finished_run later failed msg (failed_step_run r' false false r)) current undrained refl
        q in
    (
      e',
      t,
      retried later now msg r r',
      taken,
      running_again,
      retried_installs now_there recipe later now msg r r' first path,
    )
