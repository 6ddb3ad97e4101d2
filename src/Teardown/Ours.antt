-- ===== src/Teardown/Ours.antt =====
-- internal/teardown: which releases a teardown touches at all.
use aicrme.Prelude.{
  ℕ, ◌≡◌, ◌≢◌, refl, ap, String, str_eq, Bool, true, false, not, ◌&&◌, List, [], ◌∷◌, none, some,
  arith, All, All-append, Bool-cases, Option-cases, inl, inr, leb, get_or,
}
use aicrme.Engine.Run.{ComponentState, Ownership}
use aicrme.Teardown.Purge.{
  Environment, Progress, at_start, PurgeTarget, run_command, look, purge, purge_targets, purge_argv,
  component_purges,
}
use aicrme.Teardown.Releases.{
  insert, reverse_order, adopted, unprovable, skip_reason, uninstall_argv, purge_after, uninstall,
  consider, release_loop, releases, outcome,
}

-- A release that can be shown to be this run's.
abbrev pub is_ours : Ownership → String → String → Bool
is_ours own name namespace =
    not (str_eq namespace "")
    && str_eq (unprovable own.namespaces namespace) ""
    && not (adopted own.releases name namespace)

pub skip_reason-ours :
    (own : Ownership) (stopped : Bool) (c : ComponentState)
    → skip_reason own stopped c ≡ none
    → is_ours own c.name c.namespace ≡ true
unfolding skip_reason
skip_reason-ours own stopped c h = ground arith

pub consider_ours :
    (env : Environment) (timeout : String) (own : Ownership) (c : ComponentState) (stopped : Bool)
    (p : Progress)
    → skip_reason own stopped c ≡ none
    → consider env timeout own c stopped p ≡ uninstall env timeout c p
unfolding consider
consider_ours env timeout own c stopped p q = rw (consider, q) refl

pub consider_skipped :
    (env : Environment) (timeout : String) (own : Ownership) (c : ComponentState) (stopped : Bool)
    (p : Progress) (reason : String)
    → skip_reason own stopped c ≡ some reason
    → consider env timeout own c stopped p ≡ (outcome c reason "" [], stopped, p)
unfolding consider
consider_skipped env timeout own c stopped p reason q = rw (consider, q) refl

-- What holds of every command that may be run for a component holds of all commands.
module _ (Q : List String → Type 0) (env : Environment) (timeout : String) (own : Ownership) where
  purge_targets-All :
      (targets : List PurgeTarget) (p : Progress)
      → All (λ t. Q (purge_argv t)) targets
      → All Q p.commands
      → All Q (purge_targets env targets p).1.commands
  unfolding purge_targets run_command look
  purge_targets-All [] p g h = h
  purge_targets-All (t ∷ targets) p g h =
      let ran = run_command env (purge_argv t) p in
      let more = All-append Q p.commands (purge_argv t ∷ []) h (g.0, tt) in
      elim (Bool-cases (env.canceled ran.1.looks)) [
        | inl q ↦ rw q more
        | inr q ↦ rw q (purge_targets-All targets (look env ran.1).1 g.1 more)
      ]

  Grants : ComponentState → Type 0
  Grants c =
      is_ours own c.name c.namespace ≡ true
      → Q (uninstall_argv timeout c) × All (λ t. Q (purge_argv t)) (component_purges c.name)

  purge_after-All :
      (err name : String) (p : Progress)
      → All (λ t. Q (purge_argv t)) (component_purges name)
      → All Q p.commands
      → All Q (purge_after env err name p).1.commands
  unfolding purge_after look purge
  purge_after-All err name p g h = elim (Bool-cases (str_eq err "")) [
    | inl q ↦ elim (Bool-cases (env.canceled p.looks)) [
      | inl r ↦ rw (q, r) h
      | inr r ↦ rw (q, r) (purge_targets-All (component_purges name) (look env p).1 g h)
    ]
    | inr q ↦ rw q h
  ]

  uninstall-All :
      (c : ComponentState) (p : Progress)
      → Q (uninstall_argv timeout c) × All (λ t. Q (purge_argv t)) (component_purges c.name)
      → All Q p.commands
      → All Q (uninstall env timeout c p).2.commands
  unfolding uninstall run_command look
  uninstall-All c p g h =
      let ran = run_command env (uninstall_argv timeout c) p in
      purge_after-All ran.0 c.name ran.1 g.1
        (All-append Q p.commands (uninstall_argv timeout c ∷ []) h (g.0, tt))

  consider-All :
      (c : ComponentState) (stopped : Bool) (p : Progress)
      → Grants c
      → All Q p.commands
      → All Q (consider env timeout own c stopped p).2.commands
  unfolding Grants
  consider-All c stopped p g h = elim (Option-cases (skip_reason own stopped c)) [
    | inl q ↦
        rw (consider_ours env timeout own c stopped p q)
          (uninstall-All c p (g (skip_reason-ours own stopped c q)) h)
    | inr (reason, q) ↦ rw (consider_skipped env timeout own c stopped p reason q) h
  ]

  release_loop-All :
      (comps : List ComponentState) (stopped : Bool) (p : Progress)
      → All Grants comps
      → All Q p.commands
      → All Q (release_loop env timeout own comps stopped p).1.commands
  unfolding release_loop
  release_loop-All [] stopped p g h = h
  release_loop-All (c ∷ comps) stopped p g h =
      let r = consider env timeout own c stopped p in
      release_loop-All comps r.1 r.2 g.1 (consider-All c stopped p g.0 h)

insert-All :
    (P : ComponentState → Type 0) (c : ComponentState) (ds : List ComponentState)
    → P c
    → All P ds
    → All P (insert c ds)
unfolding insert
insert-All P c [] h g = (h, tt)
insert-All P c (d ∷ ds) h g = elim (Bool-cases (leb d.index c.index)) [
  | inl q ↦ rw q ((h, g))
  | inr q ↦ rw q ((g.0, insert-All P c ds h g.1))
]

reverse_order-All :
    (P : ComponentState → Type 0) (comps : List ComponentState)
    → ((c : ComponentState) → P c)
    → All P (reverse_order comps)
unfolding reverse_order
reverse_order-All P [] h = tt
reverse_order-All P (c ∷ comps) h =
    insert-All P c (reverse_order comps) (h c) (reverse_order-All P comps h)

-- The name and the namespace of an uninstall, read back from its arguments.
argument : ℕ → List String → String
argument n argv = get_or argv n ""

not_purge :
    (t : PurgeTarget) (timeout : String) (d : ComponentState)
    → purge_argv t ≢ uninstall_argv timeout d
unfolding argument purge_argv uninstall_argv
not_purge t timeout d h = absurd (ground (arith, ap (argument 0) h))

not_purges :
    (timeout : String) (d : ComponentState) (targets : List PurgeTarget)
    → All (λ t. purge_argv t ≢ uninstall_argv timeout d) targets
not_purges timeout d [] = tt
not_purges timeout d (t ∷ targets) = (not_purge t timeout d, not_purges timeout d targets)

-- A release that cannot be shown to be this run's is never uninstalled, whatever the components, the
-- results of the commands and the moment of a cancellation.
pub releases_spare :
    (env : Environment) (timeout : String) (comps : List ComponentState) (own : Ownership)
    (d : ComponentState)
    → is_ours own d.name d.namespace ≡ false
    → All
        (λ argv. argv ≢ uninstall_argv timeout d)
        (releases env timeout comps own at_start).1.commands
unfolding releases Grants argument uninstall_argv
releases_spare env timeout comps own d h =
    release_loop-All (λ argv. argv ≢ uninstall_argv timeout d) env timeout own (reverse_order comps)
      false at_start
      (reverse_order-All _ comps (λ c g. (
        λ e. absurd (ground (arith, g, h, ap (argument 2) e, ap (argument 4) e)),
        not_purges timeout d (component_purges c.name),
      )))
      tt
