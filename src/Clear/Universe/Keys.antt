-- ===== src/Clear/Universe/Keys.antt =====
-- internal/aicrclient/universe.go: the map of the charts.
use aicrme.Prelude.{
  ℕ, ◌+◌, ◌≡◌, refl, sym, ap, subst, ◌∙◌, String, str_eq, eq_iff, true, false, List, [], ◌∷◌,
  Option, none, some, arith, leb, ◌==◌, find, assign, has_key, All, Bool-cases, Option-cases, inl,
  inr, if◌then◌else◌, find-assign,
}
use aicrme.Clear.Command.{Failure, Result, ok, failed}
use aicrme.Clear.Universe.{
  Component, ComponentUniverse, ComponentRef, Resolution, unresolved, no_recipe, recipe, add_chart,
  add_ref, add_refs, add_entries, universe,
}

-- No key twice.
unfoldable pub Distinct : List (String × Component) → Type 0
Distinct [] = Unit
Distinct ((k, c) ∷ charts) = (has_key k charts ≡ false) × Distinct charts

-- A map with each component at its own chart.
pub record IsMap (charts : List (String × Component)) : Type 0 where
  pub keyed : All (λ kv. kv.1.chart ≡ kv.0) charts
  pub distinct : Distinct charts

assign_keyed :
    (k : String) (c : Component) (charts : List (String × Component))
    → c.chart ≡ k
    → All (λ kv. kv.1.chart ≡ kv.0) charts
    → All (λ kv. kv.1.chart ≡ kv.0) (assign k c charts)
unfolding assign
assign_keyed k c [] e v = (e, tt)
assign_keyed k c ((j, d) ∷ charts) e v = elim (Bool-cases (str_eq j k)) [
  | inl q ↦ rw q ((e, v.1))
  | inr q ↦ rw q ((v.0, assign_keyed k c charts e v.1))
]

assign-Distinct :
    (k : String) (c : Component) (charts : List (String × Component))
    → Distinct charts
    → Distinct (assign k c charts)
unfolding assign Distinct find
assign-Distinct k c [] v = (refl, tt)
assign-Distinct k c ((j, d) ∷ charts) v = elim (Bool-cases (str_eq j k)) [
  | inl q ↦ rw q ((ap (λ i. has_key i charts) (sym ((eq_iff j k).0 q)) ∙ v.0, v.1))
  | inr q ↦ rw q (
      (
        ground (arith, q, v.0, find-assign k j c charts, eq_iff j k, eq_iff k j),
        assign-Distinct k c charts v.1,
      ))
]

assign-IsMap :
    (k : String) (c : Component) (charts : List (String × Component))
    → c.chart ≡ k
    → IsMap charts
    → IsMap (assign k c charts)
assign-IsMap k c charts e v = record {
  keyed = assign_keyed k c charts e v.keyed;
  distinct = assign-Distinct k c charts v.distinct;
}

add_chart-IsMap :
    (pos : ℕ) (ref : ComponentRef) (chart : String) (charts : List (String × Component))
    → IsMap charts
    → IsMap (add_chart pos ref chart charts)
unfolding add_chart
add_chart-IsMap pos ref chart charts v = elim (Option-cases (find chart charts)) [
  | inl q ↦ rw q (assign-IsMap chart _ charts refl v)
  | inr (prev, q) ↦ elim (Bool-cases (leb pos prev.order)) [
    | inl r ↦ rw (q, r) v
    | inr r ↦ rw (q, r) (assign-IsMap chart _ charts refl v)
  ]
]

add_refs-IsMap :
    (pos : ℕ) (refs : List ComponentRef) (charts : List (String × Component))
    → IsMap charts
    → IsMap (add_refs pos refs charts)
unfolding add_refs add_ref
add_refs-IsMap pos [] charts v = v
add_refs-IsMap pos (ref ∷ refs) charts v =
    let chart = if str_eq ref.chart "" then ref.name else ref.chart in
    add_refs-IsMap (pos + 1) refs (add_ref pos ref charts) (elim (Bool-cases (str_eq chart "")) [
      | inl q ↦ rw q v
      | inr q ↦ rw q (add_chart-IsMap pos ref chart charts v)
    ])

-- Each chart once, at its own name, and complete exactly as long as nothing was skipped.
pub record IsUniverse (u : ComponentUniverse) : Type 0 where
  pub charts : IsMap u.charts
  pub honest : u.complete ≡ (u.skipped == 0)

add_entries-IsUniverse :
    (entries : List (Option Failure × Resolution)) (u u' : ComponentUniverse)
    → IsUniverse u
    → add_entries entries u ≡ ok u'
    → IsUniverse u'
unfolding add_entries
add_entries-IsUniverse [] u u' v e =
    subst IsUniverse (ap (λ r. elim r [ ok x ↦ x | failed f ↦ u ]) e) v
add_entries-IsUniverse ((some f, r) ∷ entries) u u' v e = absurd (ground (arith, e))
add_entries-IsUniverse ((none, unresolved (some f)) ∷ entries) u u' v e = absurd (ground (arith, e))
add_entries-IsUniverse ((none, unresolved none) ∷ entries) u u' v e =
    add_entries-IsUniverse entries _ u' (record { charts = v.charts; honest = ground arith }) e
add_entries-IsUniverse ((none, no_recipe) ∷ entries) u u' v e =
    add_entries-IsUniverse entries _ u' (record { charts = v.charts; honest = ground arith }) e
add_entries-IsUniverse ((none, recipe refs) ∷ entries) u u' v e =
    add_entries-IsUniverse entries _ u'
      (record { charts = add_refs-IsMap 0 refs u.charts v.charts; honest = v.honest }) e

-- A universe that is read has each chart once, at its own name, and is complete exactly when no entry
-- of the catalog was skipped.
pub universe-IsUniverse :
    (canceled : Option Failure) (catalog : Result (List (Option Failure × Resolution)))
    (u : ComponentUniverse)
    → universe canceled catalog ≡ ok u
    → IsUniverse u
unfolding universe Distinct
universe-IsUniverse (some f) catalog u e = absurd (ground (arith, e))
universe-IsUniverse none (failed f) u e = absurd (ground (arith, e))
universe-IsUniverse none (ok entries) u e =
    add_entries-IsUniverse entries (record { charts = []; complete = true; skipped = 0 }) u
      (record { charts = record { keyed = tt; distinct = tt }; honest = refl }) e
