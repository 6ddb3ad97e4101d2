-- ===== src/Steps/Bundle/Approved.antt =====
-- internal/steps/bundle.go: only the approved recipe is bundled.
use Prim.Native.String.{[], ◌∷◌}
use mathlib.Core.List.{List, [] as nil, ◌∷◌ as cons}
use Prim.Native.String.append
use Prim.Native.String.compare
use aicrme.Prelude.{
  ℕ, ◌+◌, ◌≡◌, refl, sym, ap, ap₂, ◌∙◌, ◌↔◌, String, str_append, str_eq, eq_iff, Bool, true, false,
  not, ◌&&◌, ◌++◌, Option, none, some, arith, ==_iff, length,
}
use aicrme.Steps.Bundle.{
  Component, Recipe, add_diff, join_diffs, diffs_of, component_drift, first_drift,
  assert_matches_approved,
}

-- The same fields.
abbrev is_same : Component → Component → Bool
is_same c a =
    str_eq c.name a.name
    && str_eq c.kind a.kind
    && str_eq c.version a.version
    && str_eq c.namespace a.namespace
    && str_eq c.chart a.chart
    && str_eq c.source a.source

-- Each difference is a text with something in it.
abbrev are_texts : List String → Bool
are_texts nil = true
are_texts (cons a rest) = not (str_eq a "") && are_texts rest

abbrev none_left : List String → Bool
none_left nil = true
none_left (cons a rest) = false

text-append : (a t : String) → str_eq a "" ≡ false → str_eq (str_append a t) "" ≡ false
text-append [] t h = absurd (ground (arith, h))
text-append (c ∷ s) t h = rw (append.cons c s t, compare.cons-nil c (str_append s t)) refl

join_diffs-text :
    (diffs : List String) → are_texts diffs ≡ true → str_eq (join_diffs diffs) "" ≡ none_left diffs
unfolding join_diffs
join_diffs-text nil h = refl
join_diffs-text (cons a nil) h = ground (arith, h)
join_diffs-text (cons a (cons b rest)) h =
    text-append a (str_append "; " (join_diffs (cons b rest))) (ground (arith, h))

are_texts-snoc :
    (diffs : List String) (a : String)
    → are_texts (diffs ++ cons a nil) ≡ (are_texts diffs && not (str_eq a ""))
are_texts-snoc nil a = ground arith
are_texts-snoc (cons b diffs) a = ground (arith, are_texts-snoc diffs a)

none_left-snoc : (diffs : List String) (a : String) → none_left (diffs ++ cons a nil) ≡ false
none_left-snoc nil a = refl
none_left-snoc (cons b diffs) a = refl

none_left-add_diff :
    (field got want : String) (diffs : List String)
    → none_left (add_diff field got want diffs) ≡ (str_eq got want && none_left diffs)
unfolding add_diff
none_left-add_diff field got want diffs = ground (arith, none_left-snoc diffs)

are_texts-add_diff :
    (field : String)
    → str_eq field "" ≡ false
    → (got want : String) (diffs : List String)
    → are_texts (add_diff field got want diffs) ≡ are_texts diffs
unfolding add_diff
are_texts-add_diff field h got want diffs =
    let text = str_append " " (str_append got (str_append " != approved " want)) in
    ground (arith, are_texts-snoc diffs (str_append field text), text-append field text h)

diffs_of-are_texts : (c a : Component) → are_texts (diffs_of c a) ≡ true
unfolding diffs_of
diffs_of-are_texts c a =
    rw
      (
        are_texts-add_diff "source" refl,
        are_texts-add_diff "chart" refl,
        are_texts-add_diff "namespace" refl,
        are_texts-add_diff "version" refl,
        are_texts-add_diff "kind" refl,
        are_texts-add_diff "name" refl,
      )
      refl

component_drift-is_same : (c a : Component) → str_eq (component_drift c a) "" ≡ is_same c a
unfolding component_drift diffs_of
component_drift-is_same c a =
    join_diffs-text (diffs_of c a) (diffs_of-are_texts c a)
    ∙ rw
        (
          none_left-add_diff "source",
          none_left-add_diff "chart",
          none_left-add_diff "namespace",
          none_left-add_diff "version",
          none_left-add_diff "kind",
          none_left-add_diff "name",
        )
        (ground arith)

is_same-path : (c a : Component) → is_same c a ≡ true → c ≡ a
is_same-path c a h = λ i. record {
  name = (eq_iff c.name a.name).0 (ground (arith, h)) i;
  kind = (eq_iff c.kind a.kind).0 (ground (arith, h)) i;
  version = (eq_iff c.version a.version).0 (ground (arith, h)) i;
  namespace = (eq_iff c.namespace a.namespace).0 (ground (arith, h)) i;
  chart = (eq_iff c.chart a.chart).0 (ground (arith, h)) i;
  source = (eq_iff c.source a.source).0 (ground (arith, h)) i;
}

first_drift-none :
    (itoa : ℕ → String) (i : ℕ) (cs approved : List Component)
    → length cs ≡ length approved
    → first_drift itoa i cs approved ≡ none
    → cs ≡ approved
unfolding first_drift
first_drift-none itoa i nil nil e h = refl
first_drift-none itoa i nil (cons a approved) e h = absurd (omega (arith, e))
first_drift-none itoa i (cons c cs) nil e h = absurd (omega (arith, e))
first_drift-none itoa i (cons c cs) (cons a approved) e h =
    ap₂ cons (is_same-path c a (ground (arith, h, component_drift-is_same c a)))
      (first_drift-none itoa (i + 1) cs approved (omega (arith, e)) (ground (arith, h)))

is_same_refl : (c : Component) → is_same c c ≡ true
is_same_refl c = ground (
  arith,
  (eq_iff c.name c.name).1 refl,
  (eq_iff c.kind c.kind).1 refl,
  (eq_iff c.version c.version).1 refl,
  (eq_iff c.namespace c.namespace).1 refl,
  (eq_iff c.chart c.chart).1 refl,
  (eq_iff c.source c.source).1 refl,
)

first_drift-same :
    (itoa : ℕ → String) (i : ℕ) (cs : List Component) → first_drift itoa i cs cs ≡ none
unfolding first_drift
first_drift-same itoa i nil = refl
first_drift-same itoa i (cons c cs) =
    rw (component_drift-is_same c c, is_same_refl c) (first_drift-same itoa (i + 1) cs)

assert_matches_approved-none :
    (itoa : ℕ → String) (result : Recipe) (approved : Option Recipe)
    → assert_matches_approved itoa result approved ≡ none
    → approved ≡ some result
unfolding assert_matches_approved
assert_matches_approved-none itoa result none h = absurd (ground (arith, h))
assert_matches_approved-none itoa result (some a) h =
    let n : a.name ≡ result.name = sym ((eq_iff result.name a.name).0 (ground (arith, h))) in
    let v : a.version ≡ result.version =
      sym ((eq_iff result.version a.version).0 (ground (arith, h))) in
    let l : length result.components ≡ length a.components =
      (==_iff (length result.components) (length a.components)).0 (ground (arith, h)) in
    let cs = sym (first_drift-none itoa 0 result.components a.components l (ground (arith, h))) in
    ap some (λ i. record { name = n i; version = v i; components = cs i })

assert_matches_approved-same :
    (itoa : ℕ → String) (result : Recipe) → assert_matches_approved itoa result (some result) ≡ none
unfolding assert_matches_approved
assert_matches_approved-same itoa result =
    rw
      (
        (eq_iff result.name result.name).1 refl,
        (eq_iff result.version result.version).1 refl,
        (==_iff (length result.components) (length result.components)).1 refl,
      )
      (first_drift-same itoa 0 result.components)

-- The check of a recipe that was resolved again passes exactly when there is an approved one and its
-- name, its version and its components, field for field and in order, are the same.
pub assert_matches_approved_lem :
    (itoa : ℕ → String) (result : Recipe) (approved : Option Recipe)
    → (assert_matches_approved itoa result approved ≡ none) ↔ (approved ≡ some result)
assert_matches_approved_lem itoa result approved = (
  assert_matches_approved-none itoa result approved,
  λ e. ap (assert_matches_approved itoa result) e ∙ assert_matches_approved-same itoa result,
)
