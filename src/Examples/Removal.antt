-- ===== src/Examples/Removal.antt =====
-- internal/teardown and internal/steps at concrete inputs.
use aicrme.Prelude.{
  ℕ, ◌≡◌, ◌≢◌, refl, String, str_eq, true, false, not, List, [], ◌∷◌, Option, none, some, ◌==◌,
  if◌then◌else◌, find, All, select, map,
}
use aicrme.Engine.Run.{Run, ComponentState, Ownership, running, no_ownership, apply}
use aicrme.Engine.State.{Engine, Thread, accepted}
use aicrme.Engine.Calls.{retry}
use aicrme.Steps.Ownership.{
  Cluster, releases_listed, absent, present, RecipeComponent, snapshot_ownership, unsnapshotted,
}
use aicrme.Steps.Apply.{ComponentData, installs, begin_apply}
use aicrme.Steps.Apply.Refusal.{ends_failed, retry_installs_over, observed}
use aicrme.Teardown.Purge.{Environment, at_start}
use aicrme.Teardown.Releases.{releases, reverse_order, uninstall_argv}
use aicrme.Teardown.Order.{Descending, has_index}
use aicrme.Teardown.Complete.{uninstalls, ours_of, releases_complete, no_evidence_uninstalls}
use aicrme.Teardown.Cancel.{first_of, canceled_teardown_runs_one}
use aicrme.Teardown.Evidence.{preexisting_spared}
use aicrme.Examples.Samples.{run_in, the_id, engine_with, plain_step}

abbrev component : ℕ → String → String → ComponentState
component i name ns = record {
  name = name;
  index = i;
  total = 3;
  namespace = ns;
  status = "deployed";
}

abbrev comps : List ComponentState
comps = component 1 "cert-manager" "cert-manager" ∷ component 2 "kai-scheduler" "kai-scheduler" ∷ []

-- The second command fails.
abbrev calm : Environment
calm = record { ran = λ n. if n == 1 then some "timeout" else none; canceled = λ n. false }

abbrev canceled : Environment
canceled = record { ran = λ n. none; canceled = λ n. true }

-- A cluster that already runs cert-manager.
abbrev before : Cluster
before = record {
  list = λ ns.
      if str_eq ns "cert-manager"
      then releases_listed ("cert-manager" ∷ [])
      else releases_listed [];
  get = λ ns. if str_eq ns "cert-manager" then present else absent;
}

abbrev evidence : Ownership
evidence = snapshot_ownership (some before) ("kai-scheduler" ∷ "cert-manager" ∷ [])

preexisting_spared_example :
    All
      (λ argv. argv ≢ uninstall_argv "5m0s" (component 1 "cert-manager" "cert-manager"))
      (releases calm "5m0s" comps evidence at_start).1.commands
preexisting_spared_example =
    preexisting_spared (some before) ("kai-scheduler" ∷ "cert-manager" ∷ []) calm "5m0s" comps
      (component 1 "cert-manager" "cert-manager") refl refl

releases_complete_example :
    (ordered : List ComponentState) × Descending ordered
    × ((i : ℕ) → select (has_index i) ordered ≡ select (has_index i) comps)
    × (uninstalls (releases calm "5m0s" comps evidence at_start).1
        ≡ map (uninstall_argv "5m0s") (ours_of evidence ordered))
releases_complete_example = releases_complete calm "5m0s" comps evidence (λ n. refl)

no_evidence_uninstalls_example :
    uninstalls (releases calm "5m0s" comps no_ownership at_start).1
    ≡ map (uninstall_argv "5m0s") (select (λ c. not (str_eq c.namespace "")) (reverse_order comps))
no_evidence_uninstalls_example = no_evidence_uninstalls calm "5m0s" comps (λ n. refl)

canceled_teardown_runs_one_example :
    (ordered : List ComponentState) × Descending ordered
    × ((i : ℕ) → select (has_index i) ordered ≡ select (has_index i) comps)
    × ((releases canceled "5m0s" comps evidence at_start).1.commands
        ≡ map (uninstall_argv "5m0s") (first_of (ours_of evidence ordered)))
canceled_teardown_runs_one_example =
    canceled_teardown_runs_one canceled "5m0s" comps evidence (λ n h. h) refl

abbrev installed : ComponentData
installed = record {
  name = "cert-manager";
  namespace = "";
  index = 0;
  total = 0;
  status = "installed";
}

-- A cluster that already runs kai-scheduler, and a recipe that installs it.
abbrev taken : Cluster
taken = record { list = λ ns. releases_listed ("kai-scheduler" ∷ []); get = λ ns. present }

abbrev recipe : Option (List RecipeComponent)
recipe = some (record { name = "kai-scheduler"; namespace = "kai-scheduler" } ∷ [])

abbrev applying : Run
applying = record (run_in running) { artifacts = ("bundle.path", "/tmp/bundle") ∷ [] }

abbrev refusal : Engine
refusal =
    ends_failed 300 1 2 (plain_step apply) (observed (some taken) recipe applying) "conflict"
      (engine_with (some applying))

retry_installs_over_example :
    (e' : Engine) × (t : Thread) × (again : Run) × (retry 400 the_id refusal ≡ accepted e' t)
    × (e'.current ≡ some again)
    × (begin_apply (some taken) recipe again
        ≡ installs again (unsnapshotted again.ownership.namespaces))
unfolding begin_apply find
retry_installs_over_example =
    retry_installs_over (some taken) (some taken) recipe applying
      (observed (some taken) recipe applying)
      (record { name = "kai-scheduler"; namespace = "kai-scheduler" } ∷ []) 300 400 1 2
      (plain_step apply) "conflict" (engine_with (some applying)) refl refl refl refl refl
