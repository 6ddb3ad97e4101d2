-- ===== src/Teardown/Releases.antt =====
-- internal/teardown/teardown.go: `Releases`. The calls of `emit` are the outcomes in their order.
use aicrme.Prelude.{
  String, str_append, str_eq, Bool, false, not, ◌&&◌, ◌||◌, List, [], ◌∷◌, Option, none, some, leb,
  if◌then◌else◌,
}
use aicrme.Engine.Run.{ComponentState, ReleaseRef, NamespaceRef, Ownership}
use aicrme.Teardown.Purge.{Environment, Progress, run_command, look, ObjectOutcome, purge}

pub record ReleaseOutcome : Type 0 where
  pub name : String
  pub namespace : String
  pub skip : String
  pub err : String
  pub objects : List ObjectOutcome

-- `slices.SortStableFunc` by falling index.
unfoldable pub insert : ComponentState → List ComponentState → List ComponentState
insert c [] = c ∷ []
insert c (d ∷ ds) = let rest = insert c ds in if leb d.index c.index then c ∷ d ∷ ds else d ∷ rest

unfoldable pub reverse_order : List ComponentState → List ComponentState
unfolding insert
reverse_order [] = []
reverse_order (c ∷ comps) = insert c (reverse_order comps)

unfoldable pub uninstall_argv : String → ComponentState → List String
uninstall_argv timeout c =
    "helm" ∷ "uninstall" ∷ c.name ∷ "-n" ∷ c.namespace ∷ "--ignore-not-found" ∷ "--wait"
    ∷ "--timeout" ∷ timeout ∷ []

-- `adoptedReleases(own)` at a release.
unfoldable pub adopted : List ReleaseRef → String → String → Bool
adopted [] name namespace = false
adopted (r ∷ refs) name namespace =
    (str_eq r.name name && str_eq r.namespace namespace) || adopted refs name namespace

-- `unprovableNamespaces(own)` at a namespace: the reason recorded last, and "" where there is none.
unfoldable pub unprovable : List NamespaceRef → String → String
unprovable [] namespace = ""
unprovable (ns ∷ refs) namespace =
    let later = unprovable refs namespace in
    if not (str_eq later "")
    then later
    else if str_eq ns.name namespace
    then ns.snapshot_err
    else ""

-- Why a release is left alone; `none` for one that is uninstalled.
unfoldable pub skip_reason : Ownership → Bool → ComponentState → Option String
unfolding adopted unprovable
skip_reason own stopped c =
    if stopped
    then some "teardown was canceled before this release was reached"
    else if str_eq c.namespace ""
    then some "no namespace was recorded for this component, so its release cannot be identified"
    else if not (str_eq (unprovable own.namespaces c.namespace) "")
    then some (
        str_append "what already existed in " (
          str_append c.namespace (
            str_append " could not be recorded before the install (" (
              str_append (unprovable own.namespaces c.namespace)
                "), so this release cannot be shown to be this run's"))))
    else if adopted own.releases c.name c.namespace
    then some
        "this release already existed before the install, so it was adopted rather than created"
    else none

abbrev pub outcome : ComponentState → String → String → List ObjectOutcome → ReleaseOutcome
outcome c skip err objects = record {
  name = c.name;
  namespace = c.namespace;
  skip = skip;
  err = err;
  objects = objects;
}

-- The purge after an uninstall: only a confirmed one, and not once canceled.
unfoldable pub purge_after :
    Environment → String → String → Progress → List ObjectOutcome × Progress
unfolding look
purge_after env err name p =
    if str_eq err ""
    then (let (canceled, seen) = look env p in if canceled then ([], seen) else purge env name seen)
    else ([], p)

-- One round of the loop: the outcome, whether the teardown is stopped after it, and the progress.
unfoldable pub uninstall :
    Environment → String → ComponentState → Progress → ReleaseOutcome × Bool × Progress
unfolding run_command look purge_after uninstall_argv
uninstall env timeout c p =
    let (err, ran) = run_command env (uninstall_argv timeout c) p in
    let (objects, purged) = purge_after env err c.name ran in
    let (canceled, seen) = look env purged in (outcome c "" err objects, canceled, seen)

unfoldable pub consider :
    Environment
    → String
    → Ownership
    → ComponentState
    → Bool
    → Progress
    → ReleaseOutcome × Bool × Progress
unfolding skip_reason
consider env timeout own c stopped p = elim (skip_reason own stopped c) [
  | some reason ↦ (outcome c reason "" [], stopped, p)
  | none ↦ uninstall env timeout c p
]

unfoldable pub release_loop :
    Environment
    → String
    → Ownership
    → List ComponentState
    → Bool
    → Progress
    → List ReleaseOutcome × Progress
unfolding consider
release_loop env timeout own [] stopped p = ([], p)
release_loop env timeout own (c ∷ comps) stopped p =
    let (out, stopped', p') = consider env timeout own c stopped p in
    let (rest, last) = release_loop env timeout own comps stopped' p' in (out ∷ rest, last)

unfoldable pub releases :
    Environment
    → String
    → List ComponentState
    → Ownership
    → Progress
    → List ReleaseOutcome × Progress
unfolding reverse_order release_loop
releases env timeout comps own p = release_loop env timeout own (reverse_order comps) false p
