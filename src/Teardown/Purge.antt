-- ===== src/Teardown/Purge.antt =====
-- internal/teardown/purge.go, with the seam that runs commands. The commands run so far and the looks
-- at the operator's context are counted, and what each comes to is chosen by the environment.
use aicrme.Prelude.{
  ℕ, suc, String, str_eq, Bool, List, [], ◌∷◌, ◌++◌, Option, none, some, if◌then◌else◌, length,
}

-- `ran n` is what `Exec.Run` returns for the command number `n`: nothing, or the text of an error.
-- `canceled n` is whether `cancel.Err()` is set at the look number `n`.
pub record Environment : Type 0 where
  pub ran : ℕ → Option String
  pub canceled : ℕ → Bool

pub record Progress : Type 0 where
  pub commands : List (List String)
  pub looks : ℕ

abbrev pub at_start : Progress
at_start = record { commands = []; looks = 0 }

-- `err.Error()`, or "" for no error.
abbrev pub error_text : Option String → String
error_text none = ""
error_text (some text) = text

unfoldable pub run_command : Environment → List String → Progress → String × Progress
run_command env argv p =
    (error_text (env.ran (length p.commands)), record p { commands = p.commands ++ argv ∷ [] })

unfoldable pub look : Environment → Progress → Bool × Progress
look env p = (env.canceled p.looks, record p { looks = suc p.looks })

pub record PurgeTarget : Type 0 where
  pub resource : String
  pub name : String
  pub namespace : String

pub record ObjectOutcome : Type 0 where
  pub resource : String
  pub name : String
  pub namespace : String
  pub err : String

abbrev cluster_object : String → String → PurgeTarget
cluster_object resource name = record { resource = resource; name = name; namespace = "" }

-- The one entry of `componentPurges`.
abbrev kai_objects : List PurgeTarget
kai_objects =
    cluster_object "schedulingshard.kai.scheduler" "default"
    ∷ cluster_object "queue.scheduling.run.ai" "default-queue"
    ∷ cluster_object "queue.scheduling.run.ai" "default-parent-queue"
    ∷ record { resource = "config.kai.scheduler"; name = "kai-config"; namespace = "kai-scheduler" }
    ∷ []

unfoldable pub component_purges : String → List PurgeTarget
component_purges component = if str_eq component "kai-scheduler" then kai_objects else []

-- `purgeTimeout` is a minute.
unfoldable pub purge_argv : PurgeTarget → List String
purge_argv t =
    "kubectl"
    ∷ "delete"
    ∷ t.resource
    ∷ t.name
    ∷ ((if str_eq t.namespace "" then [] else "-n" ∷ t.namespace ∷ [])
        ++ "--ignore-not-found" ∷ "--timeout=1m0s" ∷ [])

abbrev pub object_outcome : PurgeTarget → String → ObjectOutcome
object_outcome t err = record {
  resource = t.resource;
  name = t.name;
  namespace = t.namespace;
  err = err;
}

unfoldable pub purge_targets :
    Environment → List PurgeTarget → Progress → List ObjectOutcome × Progress
unfolding run_command look purge_argv
purge_targets env [] p = ([], p)
purge_targets env (t ∷ targets) p =
    let (err, ran) = run_command env (purge_argv t) p in
    let (canceled, seen) = look env ran in
    let (rest, last) = purge_targets env targets seen in
    if canceled then (object_outcome t err ∷ [], seen) else (object_outcome t err ∷ rest, last)

unfoldable pub purge : Environment → String → Progress → List ObjectOutcome × Progress
unfolding component_purges purge_targets
purge env component p = purge_targets env (component_purges component) p
