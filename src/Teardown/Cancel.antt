-- ===== src/Teardown/Cancel.antt =====
-- internal/teardown/teardown.go: a teardown whose context is canceled.
use aicrme.Prelude.{
  ℕ, suc, ◌≡◌, refl, sym, ap, ◌∙◌, String, true, false, List, [], ◌∷◌, ◌++◌, arith, Bool-cases, inl,
  inr, map, select,
}
use mathlib.Core.List.{append-nil}
use aicrme.Engine.Run.{ComponentState, Ownership}
use aicrme.Teardown.Purge.{Environment, Progress, at_start, run_command, look}
use aicrme.Teardown.Releases.{
  reverse_order, uninstall_argv, purge_after, uninstall, release_loop, releases,
}
use aicrme.Teardown.Order.{Descending, has_index, reverse_order-Descending, select-reverse_order}
use aicrme.Teardown.Ours.{is_ours, consider_ours, consider_skipped}
use aicrme.Teardown.Complete.{ours_unskipped, others_skipped, ours_of}

-- A context that has been canceled stays so.
abbrev pub StaysCanceled : Environment → Type 0
StaysCanceled env = (n : ℕ) → env.canceled n ≡ true → env.canceled (suc n) ≡ true

abbrev pub first_of : List ComponentState → List ComponentState
first_of [] = []
first_of (c ∷ comps) = c ∷ []

module _ (env : Environment) (timeout : String) (own : Ownership) where
  release_loop-stopped :
      (comps : List ComponentState) (p : Progress)
      → (release_loop env timeout own comps true p).1 ≡ p
  unfolding release_loop
  release_loop-stopped [] p = refl
  release_loop-stopped (c ∷ comps) p = release_loop-stopped comps p

  uninstall_canceled :
      (c : ComponentState) (p : Progress)
      → StaysCanceled env
      → env.canceled p.looks ≡ true
      → ((uninstall env timeout c p).1 ≡ true)
        × ((uninstall env timeout c p).2.commands ≡ p.commands ++ uninstall_argv timeout c ∷ [])
  unfolding uninstall run_command look purge_after
  uninstall_canceled c p m h = ground (arith, m p.looks h)

  release_loop-canceled :
      (comps : List ComponentState) (p : Progress)
      → StaysCanceled env
      → env.canceled p.looks ≡ true
      → (release_loop env timeout own comps false p).1.commands
        ≡ p.commands ++ map (uninstall_argv timeout) (first_of (ours_of own comps))
  unfolding release_loop
  release_loop-canceled [] p m h = sym (append-nil p.commands)
  release_loop-canceled (c ∷ comps) p m h = elim (Bool-cases (is_ours own c.name c.namespace)) [
    | inl q ↦
        let u = uninstall_canceled c p m h in
        rw (consider_ours env timeout own c false p (ours_unskipped own c q), q, u.0)
          (ap (λ r. r.commands) (release_loop-stopped comps (uninstall env timeout c p).2) ∙ u.1)
    | inr q ↦
        let (reason, s) = others_skipped own c q in
        rw (consider_skipped env timeout own c false p reason s, q)
          (release_loop-canceled comps p m h)
  ]

-- A teardown whose context is canceled from its start on still runs one command, if any release can be
-- shown to be this run's: it uninstalls the first one of these in a list in which no component stands
-- before one of a higher index and which has the components of each index in the order of the record.
-- It runs no other command.
pub canceled_teardown_runs_one :
    (env : Environment) (timeout : String) (comps : List ComponentState) (own : Ownership)
    → StaysCanceled env
    → env.canceled 0 ≡ true
    → (ordered : List ComponentState) × Descending ordered
      × ((i : ℕ) → select (has_index i) ordered ≡ select (has_index i) comps)
      × ((releases env timeout comps own at_start).1.commands
          ≡ map (uninstall_argv timeout) (first_of (ours_of own ordered)))
unfolding releases
canceled_teardown_runs_one env timeout comps own m h = (
  reverse_order comps,
  reverse_order-Descending comps,
  λ i. select-reverse_order i comps,
  release_loop-canceled env timeout own (reverse_order comps) at_start m h,
)
