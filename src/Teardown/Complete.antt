-- ===== src/Teardown/Complete.antt =====
-- internal/teardown/teardown.go: a teardown that nobody cancels goes on past every failure.
use aicrme.Prelude.{
  ℕ, ◌≡◌, refl, sym, ap, ◌∙◌, String, str_eq, Bool, true, false, not, List, [], ◌∷◌, ◌++◌, none,
  some, arith, map, select, select-append, Bool-cases, Option-cases, inl, inr,
}
use mathlib.Core.List.{append_assoc, append-nil}
use aicrme.Engine.Run.{ComponentState, Ownership, no_ownership}
use aicrme.Teardown.Purge.{
  Environment, Progress, at_start, PurgeTarget, run_command, look, purge, purge_targets, purge_argv,
  component_purges,
}
use aicrme.Teardown.Releases.{
  reverse_order, adopted, unprovable, skip_reason, uninstall_argv, purge_after, uninstall,
  release_loop, releases,
}
use aicrme.Teardown.Order.{Descending, has_index, reverse_order-Descending, select-reverse_order}
use aicrme.Teardown.Ours.{is_ours, skip_reason-ours, consider_ours, consider_skipped}

abbrev pub is_helm : List String → Bool
is_helm [] = false
is_helm (word ∷ argv) = str_eq word "helm"

abbrev pub ours_of : Ownership → List ComponentState → List ComponentState
ours_of own = select (λ c. is_ours own c.name c.namespace)

-- The commands of helm among those that a progress has seen.
abbrev pub uninstalls : Progress → List (List String)
uninstalls p = select is_helm p.commands

module _ (env : Environment) (timeout : String) where
  purge_targets-uninstalls :
      (targets : List PurgeTarget) (p : Progress)
      → uninstalls (purge_targets env targets p).1 ≡ uninstalls p
  unfolding purge_targets run_command look purge_argv
  purge_targets-uninstalls [] p = refl
  purge_targets-uninstalls (t ∷ targets) p =
      let ran = run_command env (purge_argv t) p in
      let seen = look env ran.1 in
      ground (
        arith,
        select-append is_helm p.commands (purge_argv t ∷ []),
        append-nil (select is_helm p.commands),
        purge_targets-uninstalls targets seen.1,
      )

  purge_after-uninstalls :
      (err name : String) (p : Progress) → uninstalls (purge_after env err name p).1 ≡ uninstalls p
  unfolding purge_after look purge
  purge_after-uninstalls err name p =
      ground (arith, purge_targets-uninstalls (component_purges name) (look env p).1)

  uninstall-uninstalls :
      (c : ComponentState) (p : Progress)
      → uninstalls (uninstall env timeout c p).2 ≡ uninstalls p ++ uninstall_argv timeout c ∷ []
  unfolding uninstall run_command look uninstall_argv
  uninstall-uninstalls c p =
      let ran = run_command env (uninstall_argv timeout c) p in
      purge_after-uninstalls ran.0 c.name ran.1
      ∙ select-append is_helm p.commands (uninstall_argv timeout c ∷ [])

pub ours_unskipped :
    (own : Ownership) (c : ComponentState)
    → is_ours own c.name c.namespace ≡ true
    → skip_reason own false c ≡ none
unfolding skip_reason
ours_unskipped own c h = ground arith

pub others_skipped :
    (own : Ownership) (c : ComponentState)
    → is_ours own c.name c.namespace ≡ false
    → (reason : String) × (skip_reason own false c ≡ some reason)
others_skipped own c h = elim (Option-cases (skip_reason own false c)) [
  | inl q ↦ absurd (ground (arith, skip_reason-ours own false c q, h))
  | inr p ↦ p
]

module _ (env : Environment) (timeout : String) (own : Ownership)
    (uncanceled : (n : ℕ) → env.canceled n ≡ false) where
  uninstall_goes_on : (c : ComponentState) (p : Progress) → (uninstall env timeout c p).1 ≡ false
  unfolding uninstall look
  uninstall_goes_on c p = uncanceled _

  release_loop-uninstalls :
      (comps : List ComponentState) (p : Progress)
      → uninstalls (release_loop env timeout own comps false p).1
        ≡ uninstalls p ++ map (uninstall_argv timeout) (ours_of own comps)
  unfolding release_loop
  release_loop-uninstalls [] p = sym (append-nil (uninstalls p))
  release_loop-uninstalls (c ∷ comps) p = elim (Bool-cases (is_ours own c.name c.namespace)) [
    | inl q ↦
        rw
          (
            consider_ours env timeout own c false p (ours_unskipped own c q),
            q,
            uninstall_goes_on c p,
          )
          (release_loop-uninstalls comps (uninstall env timeout c p).2
            ∙ ap (λ us. us ++ map (uninstall_argv timeout) (ours_of own comps))
                (uninstall-uninstalls env timeout c p)
            ∙ append_assoc (uninstalls p) (uninstall_argv timeout c ∷ [])
                (map (uninstall_argv timeout) (ours_of own comps)))
    | inr q ↦
        let (reason, s) = others_skipped own c q in
        rw (consider_skipped env timeout own c false p reason s, q)
          (release_loop-uninstalls comps p)
  ]

releases-uninstalls :
    (env : Environment) (timeout : String) (comps : List ComponentState) (own : Ownership)
    → ((n : ℕ) → env.canceled n ≡ false)
    → uninstalls (releases env timeout comps own at_start).1
      ≡ map (uninstall_argv timeout) (ours_of own (reverse_order comps))
unfolding releases
releases-uninstalls env timeout comps own h =
    release_loop-uninstalls env timeout own h (reverse_order comps) at_start

-- A teardown that is not canceled uninstalls every release that can be shown to be this run's, once
-- each, and no other, whatever commands fail on the way. It goes through a list in which no component
-- stands before one of a higher index, and which has the components of each index in the order of the
-- record.
pub releases_complete :
    (env : Environment) (timeout : String) (comps : List ComponentState) (own : Ownership)
    → ((n : ℕ) → env.canceled n ≡ false)
    → (ordered : List ComponentState) × Descending ordered
      × ((i : ℕ) → select (has_index i) ordered ≡ select (has_index i) comps)
      × (uninstalls (releases env timeout comps own at_start).1
          ≡ map (uninstall_argv timeout) (ours_of own ordered))
releases_complete env timeout comps own h = (
  reverse_order comps,
  reverse_order-Descending comps,
  λ i. select-reverse_order i comps,
  releases-uninstalls env timeout comps own h,
)

-- With no evidence at all, a teardown that is not canceled uninstalls every release with a recorded
-- namespace.
pub no_evidence_uninstalls :
    (env : Environment) (timeout : String) (comps : List ComponentState)
    → ((n : ℕ) → env.canceled n ≡ false)
    → uninstalls (releases env timeout comps no_ownership at_start).1
      ≡ map
          (uninstall_argv timeout)
          (select (λ c. not (str_eq c.namespace "")) (reverse_order comps))
unfolding adopted unprovable
no_evidence_uninstalls env timeout comps h =
    releases-uninstalls env timeout comps no_ownership h
    ∙ ap (map (uninstall_argv timeout)) (all_ours (reverse_order comps))
  where
    all_ours :
        (cs : List ComponentState)
        → ours_of no_ownership cs ≡ select (λ c. not (str_eq c.namespace "")) cs
    all_ours [] = refl
    all_ours (c ∷ cs) = ground (arith, all_ours cs)
