-- ===== src/Teardown/Order.antt =====
-- internal/teardown/teardown.go: the order in which the components are gone through.
use aicrme.Prelude.{
  ℕ, ◌≤◌, ◌≡◌, refl, ap₂, String, Bool, false, List, [], ◌∷◌, arith, leb, ◌==◌, map, select, All,
  Bool-cases, inl, inr,
}
use aicrme.Engine.Run.{ComponentState, Ownership}
use aicrme.Teardown.Purge.{Environment, Progress}
use aicrme.Teardown.Releases.{
  ReleaseOutcome, insert, reverse_order, uninstall, consider, release_loop, releases,
}

-- No component is before one with a higher index.
abbrev pub Descending : List ComponentState → Type 0
Descending [] = Unit
Descending (c ∷ comps) = All (λ d. d.index ≤ c.index) comps × Descending comps

insert-below :
    (n : ℕ) (c : ComponentState) (ds : List ComponentState)
    → c.index ≤ n
    → All (λ d. d.index ≤ n) ds
    → All (λ d. d.index ≤ n) (insert c ds)
unfolding insert
insert-below n c [] h p = (h, tt)
insert-below n c (d ∷ ds) h p = ground (arith, insert-below n c ds h p.1)

below_trans :
    (m n : ℕ) (ds : List ComponentState)
    → m ≤ n
    → All (λ d. d.index ≤ m) ds
    → All (λ d. d.index ≤ n) ds
below_trans m n [] h p = tt
below_trans m n (d ∷ ds) h p = (omega (arith, p.0), below_trans m n ds h p.1)

insert-Descending :
    (c : ComponentState) (ds : List ComponentState) → Descending ds → Descending (insert c ds)
unfolding insert
insert-Descending c [] p = (tt, tt)
insert-Descending c (d ∷ ds) p = elim (Bool-cases (leb d.index c.index)) [
  | inl q ↦
      let h : d.index ≤ c.index = ground (arith, q) in
      rw q (((h, below_trans d.index c.index ds h p.0), p))
  | inr q ↦
      let h : c.index ≤ d.index = ground (arith, q) in
      rw q ((insert-below d.index c ds h p.0, insert-Descending c ds p.1))
]

pub reverse_order-Descending : (comps : List ComponentState) → Descending (reverse_order comps)
unfolding reverse_order
reverse_order-Descending [] = tt
reverse_order-Descending (c ∷ comps) =
    insert-Descending c (reverse_order comps) (reverse_order-Descending comps)

abbrev pub has_index : ℕ → ComponentState → Bool
has_index i c = c.index == i

select-insert :
    (i : ℕ) (c : ComponentState) (ds : List ComponentState)
    → select (has_index i) (insert c ds) ≡ select (has_index i) (c ∷ ds)
unfolding insert
select-insert i c [] = refl
select-insert i c (d ∷ ds) = ground (arith, select-insert i c ds)

pub select-reverse_order :
    (i : ℕ) (comps : List ComponentState)
    → select (has_index i) (reverse_order comps) ≡ select (has_index i) comps
unfolding reverse_order
select-reverse_order i [] = refl
select-reverse_order i (c ∷ comps) =
    ground (arith, select-insert i c (reverse_order comps), select-reverse_order i comps)

-- What an outcome, and a component, is about.
abbrev pub named : ReleaseOutcome → String × String
named out = (out.name, out.namespace)

abbrev pub identity : ComponentState → String × String
identity c = (c.name, c.namespace)

consider-named :
    (env : Environment) (timeout : String) (own : Ownership) (c : ComponentState) (stopped : Bool)
    (p : Progress)
    → named (consider env timeout own c stopped p).0 ≡ identity c
unfolding consider uninstall
consider-named env timeout own c stopped p = ground arith

release_loop-named :
    (env : Environment) (timeout : String) (own : Ownership) (comps : List ComponentState)
    (stopped : Bool) (p : Progress)
    → map named (release_loop env timeout own comps stopped p).0 ≡ map identity comps
unfolding release_loop
release_loop-named env timeout own [] stopped p = refl
release_loop-named env timeout own (c ∷ comps) stopped p =
    ap₂ ◌∷◌ (consider-named env timeout own c stopped p) (
      release_loop-named env timeout own comps (consider env timeout own c stopped p).1
        (consider env timeout own c stopped p).2)

-- A teardown has one outcome for each component, whatever fails and whenever it is canceled: the
-- components in falling order of their index, those of one index in the order of the record.
pub releases_considered :
    (env : Environment) (timeout : String) (comps : List ComponentState) (own : Ownership)
    (p : Progress)
    → (map named (releases env timeout comps own p).0 ≡ map identity (reverse_order comps))
      × Descending (reverse_order comps)
      × ((i : ℕ) → select (has_index i) (reverse_order comps) ≡ select (has_index i) comps)
unfolding releases
releases_considered env timeout comps own p = (
  release_loop-named env timeout own (reverse_order comps) false p,
  reverse_order-Descending comps,
  λ i. select-reverse_order i comps,
)
