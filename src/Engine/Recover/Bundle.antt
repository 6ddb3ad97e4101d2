-- ===== src/Engine/Recover/Bundle.antt =====
-- internal/engine/recover.go: `bundleStepIndex` finds the one bundle step, and `Recover` installs a run
-- only where there is one.
use aicrme.Prelude.{
  ℕ, zero, suc, ◌+◌, ◌≤◌, Bool, true, false, List, [], ◌∷◌, Option, none, some, arith, ◌≡◌, refl,
  ◌⊎◌, inl, inr, Bool-cases, Option-cases, ◌==◌, if◌then◌else◌,
}
use aicrme.Engine.Run.{Run, is_bundle}
use aicrme.Engine.State.{Engine, Step}
use aicrme.Engine.Recover.{
  bundle_loop, bundle_step_index, recovered_run, recover, recover_loaded, install, Loaded, loaded,
  load_failed, load_current_with_retry, internal, not_found, other_code, validate_loaded,
  cluster_matches,
}

-- Is there a step at `j`, and does it bundle?
abbrev pub bundles_at : ℕ → List Step → Bool
bundles_at j [] = false
bundles_at zero (s ∷ steps) = is_bundle s.phase
bundles_at (suc j) (s ∷ steps) = bundles_at j steps

abbrev pub bundles : List Step → ℕ
bundles [] = 0
bundles (s ∷ steps) = (if is_bundle s.phase then 1 else 0) + bundles steps

loop_count :
    (steps : List Step) (i : ℕ) (found : Option ℕ) (count : ℕ)
    → (bundle_loop steps i found count).1 ≡ count + bundles steps
unfolding bundle_loop
loop_count [] i found count = omega arith
loop_count (s ∷ steps) i found count = ground (
  arith,
  loop_count steps (i + 1)
      (if is_bundle s.phase then (elim found [ none ↦ some i | some j ↦ some j ]) else found)
      (if is_bundle s.phase then count + 1 else count),
)

none_left : (steps : List Step) (j : ℕ) → bundles steps ≡ 0 → bundles_at j steps ≡ false
none_left [] j h = refl
none_left (s ∷ steps) zero h = ground arith
none_left (s ∷ steps) (suc j) h = none_left steps j (ground arith)

loop_kept : (steps : List Step) (i k count : ℕ) → (bundle_loop steps i (some k) count).0 ≡ some k
unfolding bundle_loop
loop_kept [] i k count = refl
loop_kept (s ∷ steps) i k count =
    ground (arith, loop_kept steps (i + 1) k (count + 1), loop_kept steps (i + 1) k count)

loop_above :
    (steps : List Step) (i count k : ℕ) → (bundle_loop steps i none count).0 ≡ some k → i ≤ k
unfolding bundle_loop
loop_above [] i count k q = ground arith
loop_above (s ∷ steps) i count k q =
    ground (arith, loop_above steps (i + 1) count k, loop_kept steps (i + 1) i (count + 1))

loop_found :
    (steps : List Step) (i count k j : ℕ)
    → bundles steps ≡ 1
    → (bundle_loop steps i none count).0 ≡ some k
    → bundles_at j steps ≡ (i + j == k)
unfolding bundle_loop
loop_found [] i count k j h q = absurd (omega arith)
loop_found (s ∷ steps) i count k zero h q =
    ground (arith, loop_above steps (i + 1) count k, loop_kept steps (i + 1) i (count + 1))
loop_found (s ∷ steps) i count k (suc j) h q = ground (
  arith,
  loop_found steps (i + 1) count k j,
  loop_kept steps (i + 1) i (count + 1),
  none_left steps j,
)

-- An index that `bundleStepIndex` returns is the place of a step that bundles, and of the only one.
pub bundle_step_index_lem :
    (steps : List Step) (k : ℕ)
    → bundle_step_index steps ≡ some k
    → (j : ℕ) → bundles_at j steps ≡ (j == k)
unfolding bundle_step_index
bundle_step_index_lem steps k h j =
    ground (arith, loop_count steps 0 none 0, loop_found steps 0 0 k j)

abbrev Installs : ℕ → Engine → Loaded → Engine → Type 0
Installs bundle e l e' =
    (r : Run) × (l ≡ loaded r)
    × (validate_loaded e.steps r ≡ true)
    × (cluster_matches e r ≡ true)
    × (e'.current ≡ some (recovered_run bundle r))
    × (e'.recovered_pending ≡ true)

abbrev Keeps : Engine → Engine → Type 0
Keeps e e' = (e'.current ≡ e.current) × (e'.recovered_pending ≡ e.recovered_pending)

loaded-Installs :
    (bundle : ℕ) (e : Engine) (l : Loaded)
    → Keeps e (recover_loaded bundle e l).0 ⊎ Installs bundle e l (recover_loaded bundle e l).0
unfolding recover_loaded install
loaded-Installs bundle e (load_failed not_found) = inl (refl, refl)
loaded-Installs bundle e (load_failed internal) = inl (refl, refl)
loaded-Installs bundle e (load_failed other_code) = inl (refl, refl)
loaded-Installs bundle e (loaded r) = elim (Bool-cases (validate_loaded e.steps r)) [
  | inl p ↦ elim (Bool-cases (cluster_matches e r)) [
    | inl q ↦ inr (r, refl, p, q, ground arith, ground arith)
    | inr q ↦ inl (ground arith, ground arith)
  ]
  | inr p ↦ inl (ground arith, ground arith)
]

recover_at :
    (load : ℕ → Loaded) (done : ℕ → Bool) (e : Engine) (b : ℕ)
    → bundle_step_index e.steps ≡ some b
    → (recover load done e).0 ≡ (recover_loaded b e (load_current_with_retry load done)).0
unfolding recover
recover_at load done e b q = rw (recover, q) refl

recover_unset :
    (load : ℕ → Loaded) (done : ℕ → Bool) (e : Engine)
    → bundle_step_index e.steps ≡ none
    → Keeps e (recover load done e).0
unfolding recover
recover_unset load done e q = (rw (recover, q) refl, rw (recover, q) refl)

-- `Recover` either leaves the current run and its mark as they are, or it has loaded a record that is
-- valid for these steps and does not belong to another cluster, and installs it as interrupted, with
-- the index of the one bundle step as the bound of a restart.
pub recover_installs :
    (load : ℕ → Loaded) (done : ℕ → Bool) (e : Engine)
    → let e' = (recover load done e).0 in
      ((e'.current ≡ e.current) × (e'.recovered_pending ≡ e.recovered_pending))
      ⊎ ((bundle : ℕ) × (r : Run) × (bundle_step_index e.steps ≡ some bundle)
          × (load_current_with_retry load done ≡ loaded r)
          × (validate_loaded e.steps r ≡ true)
          × (cluster_matches e r ≡ true)
          × (e'.current ≡ some (recovered_run bundle r))
          × (e'.recovered_pending ≡ true))
recover_installs load done e = elim (Option-cases (bundle_step_index e.steps)) [
  | inl q ↦ inl (recover_unset load done e q)
  | inr (b, q) ↦ elim (loaded-Installs b e (load_current_with_retry load done)) [
    | inl k ↦ inl (rw (recover_at load done e b q) k)
    | inr (r, l, v, m, c, p) ↦
        inr (b, r, q, l, v, m, rw (recover_at load done e b q) c, rw (recover_at load done e b q) p)
  ]
]
