-- ===== src/Clear/Charts/Longest.antt =====
-- internal/clear/releases.go: the chart that `matchChart` finds, whatever the order of the map.
use Prim.Native.String.{String, [], ◌∷◌, len}
use Prim.Native.String.append
use Prim.Native.String.len as Len
use Prim.Native.Char.{Char, code, len_utf8}
use text.Mathlib.TextEquality.{Char-path}
use text.Mathlib.TextPositions.{len_utf8-pos}
use mathlib.Core.List.{List, [] as nil, ◌∷◌ as cons}
use aicrme.Prelude.{
  ℕ, ◌+◌, ◌≤◌, ◌≡◌, refl, sym, ap, ap₂, subst, ◌∙◌, ◌⊎◌, inl, inr, str_append, Option, none, some,
  arith, ◌==◌, ==_iff, leb, Bool-cases, Option-cases, find, All, str_eq, eq_iff,
}
use aicrme.Applier.Matcher.{strip}
use aicrme.Clear.Universe.{Component}
use aicrme.Clear.Universe.Keys.{Distinct, IsMap}
use aicrme.Clear.Charts.{version_of, keep_longer, consider_chart, match_from, match_chart}

strip-cons :
    (c e : Char) (a f x : String) → strip (c ∷ a) (e ∷ f) ≡ some x → (c ≡ e) × (strip a f ≡ some x)
unfolding strip
strip-cons c e a f x h = elim (Bool-cases (code c == code e)) [
  | inl q ↦ (Char-path c e ((==_iff (code c) (code e)).0 q), ground (arith, h, q))
  | inr q ↦ absurd (ground (arith, h, q))
]

-- Two texts of one length in front of `t` that both begin a third one.
strip-same_len :
    (a b t f x y : String)
    → strip (str_append a t) f ≡ some x
    → strip (str_append b t) f ≡ some y
    → len a ≡ len b
    → a ≡ b
unfolding strip
strip-same_len [] [] t f x y h g e = refl
strip-same_len [] (d ∷ b) t f x y h g e =
    absurd (omega (arith, Len.nil, Len.cons d b, (len_utf8-pos d).1, e))
strip-same_len (c ∷ a) [] t f x y h g e =
    absurd (omega (arith, Len.nil, Len.cons c a, (len_utf8-pos c).1, e))
strip-same_len (c ∷ a) (d ∷ b) t [] x y h g e =
    absurd (ground (arith, sym (ap (λ s. strip s []) (append.cons c a t)) ∙ h))
strip-same_len (c ∷ a) (d ∷ b) t (z ∷ f) x y h g e =
    let p =
      strip-cons c z (str_append a t) f x
        (sym (ap (λ s. strip s (z ∷ f)) (append.cons c a t)) ∙ h) in
    let q =
      strip-cons d z (str_append b t) f y
        (sym (ap (λ s. strip s (z ∷ f)) (append.cons d b t)) ∙ g) in
    let cd : c ≡ d = p.0 ∙ sym q.0 in
    ap₂ ◌∷◌ cd (
      strip-same_len a b t f x y p.1 q.1
        (omega (arith, e, Len.cons c a, Len.cons d b, ap len_utf8 cd)))

version_of-strip :
    (chart field v : String)
    → version_of chart field ≡ some v
    → strip (str_append chart "-") field ≡ some v
unfolding version_of
version_of-strip chart field v h = elim (Option-cases (strip (str_append chart "-") field)) [
  | inl q ↦ absurd (ground (arith, h, q))
  | inr (s, q) ↦ ground (arith, h, q)
]

-- 0 when nothing is found, and above the length of the chart otherwise.
abbrev pub rank : Option (Component × String) → ℕ
rank none = 0
rank (some (c, v)) = len c.chart + 1

-- No chart of the map that fits is longer than what is found.
abbrev Beaten : String → String → Option (Component × String) → Type 0
Beaten field k o = (version_of k field ≡ none) ⊎ (len k + 1 ≤ rank o)

keep_longer_lem :
    (k : String) (c : Component) (v : Option String) (o : Option (Component × String))
    → c.chart ≡ k
    → (rank o ≤ rank (keep_longer k c v o))
      × ((v ≡ none) ⊎ (len k + 1 ≤ rank (keep_longer k c v o)))
      × ((keep_longer k c v o ≡ o)
          ⊎ ((w : String) × (v ≡ some w) × (keep_longer k c v o ≡ some (c, w))))
unfolding keep_longer
keep_longer_lem k c none o e = (omega arith, inl refl, inl refl)
keep_longer_lem k c (some w) none e =
    (omega arith, inr (omega (arith, ap len e)), inr (w, refl, refl))
keep_longer_lem k c (some w) (some (b, u)) e = elim (Bool-cases (leb (len k) (len b.chart))) [
  | inl q ↦ rw q ((omega arith, inr (ground (arith, q)), inl refl))
  | inr q ↦ rw q ((ground (arith, q, ap len e), inr (omega (arith, ap len e)), inr (w, refl, refl)))
]

-- What is found is in the map at its chart, with its version.
abbrev pub Picked : String → List (String × Component) → Option (Component × String) → Type 0
Picked field charts o =
    (c : Component) × (v : String) × (o ≡ some (c, v))
    × (find c.chart charts ≡ some c)
    × (version_of c.chart field ≡ some v)

match_from_lem :
    (field : String) (charts : List (String × Component)) (o : Option (Component × String))
    → All (λ kv. kv.1.chart ≡ kv.0) charts
    → Distinct charts
    → (rank o ≤ rank (match_from field charts o))
      × ((k : String) (d : Component)
          → find k charts ≡ some d
          → Beaten field k (match_from field charts o))
      × ((match_from field charts o ≡ o) ⊎ Picked field charts (match_from field charts o))
unfolding match_from find consider_chart Distinct
match_from_lem field nil o keyed distinct =
    (omega arith, λ k d h. absurd (ground (arith, h)), inl refl)
match_from_lem field (cons (k, c) charts) o keyed distinct =
    let o' = keep_longer k c (version_of k field) o in
    let here = keep_longer_lem k c (version_of k field) o keyed.0 in
    let rest = match_from_lem field charts o' keyed.1 distinct.1 in
    (
      omega (arith, here.0, rest.0),
      λ j d h. elim (Bool-cases (str_eq k j)) [
        | inl q ↦
            subst (λ i. Beaten field i (match_from field charts o')) ((eq_iff k j).0 q)
              (elim here.1 [ inl n ↦ inl n | inr l ↦ inr (omega (arith, l, rest.0)) ])
        | inr q ↦ rest.1 j d (ground (arith, h, q))
      ],
      elim rest.2 [
        | inl same ↦ elim here.2 [
          | inl s ↦ inl (same ∙ s)
          | inr (w, vw, ow) ↦ inr (
              (
                c,
                w,
                same ∙ ow,
                ground (arith, keyed.0, eq_iff k c.chart),
                subst (λ i. version_of i field ≡ some w) (sym keyed.0) vw,
              ))
        ]
        | inr (b, w, r, f, vw) ↦
            inr ((b, w, r, ground (arith, f, distinct.0, eq_iff k b.chart), vw))
      ],
    )

match_chart_lem :
    (field : String) (charts : List (String × Component))
    → IsMap charts
    → ((k : String) (d : Component)
        → find k charts ≡ some d
        → Beaten field k (match_chart field charts))
      × ((match_chart field charts ≡ none) ⊎ Picked field charts (match_chart field charts))
unfolding match_chart
match_chart_lem field charts v =
    let r = match_from_lem field charts none v.keyed v.distinct in (r.1, r.2)

-- A chart of the map either does not fit the field, or one that is at least as long is found: that one is
-- in the map, and the field is its name, a dash and the version.
pub match_chart-Picked :
    (field : String) (charts : List (String × Component)) (k : String) (d : Component)
    → IsMap charts
    → find k charts ≡ some d
    → (version_of k field ≡ none)
      ⊎ ((len k + 1 ≤ rank (match_chart field charts))
          × Picked field charts (match_chart field charts))
match_chart-Picked field charts k d v h =
    let m = match_chart_lem field charts v in
    elim (m.0 k d h) [
      | inl n ↦ inl n
      | inr l ↦ elim m.1 [ inl q ↦ absurd (omega (arith, l, ap rank q)) | inr p ↦ inr (l, p) ]
    ]

-- Two lists of one map: what one finds is no longer than what the other does.
rank_le :
    (field : String) (charts charts' : List (String × Component))
    → IsMap charts
    → IsMap charts'
    → ((k : String) → find k charts ≡ find k charts')
    → rank (match_chart field charts) ≤ rank (match_chart field charts')
rank_le field charts charts' v v' same = elim (match_chart_lem field charts v).1 [
  | inl q ↦ rw q (omega arith)
  | inr (c, w, r, f, vw) ↦
      elim ((match_chart_lem field charts' v').0 c.chart c (sym (same c.chart) ∙ f)) [
        | inl n ↦ absurd (ground (arith, n, vw))
        | inr l ↦ rw r (omega (arith, l))
      ]
]

some_inj {ℓ} : {A : Type ℓ} (d a b : A) → some a ≡ some b → a ≡ b
some_inj d a b e = ap (λ o. elim o [ none ↦ d | some x ↦ x ]) e

-- The chart does not depend on the order in which the map is traversed.
pub match_chart_any_order :
    (field : String) (charts charts' : List (String × Component))
    → IsMap charts
    → IsMap charts'
    → ((k : String) → find k charts ≡ find k charts')
    → match_chart field charts ≡ match_chart field charts'
match_chart_any_order field charts charts' v v' same =
    let le = rank_le field charts charts' v v' same in
    let ge = rank_le field charts' charts v' v (λ k. sym (same k)) in
    elim (match_chart_lem field charts v).1 [
      | inl q ↦ elim (match_chart_lem field charts' v').1 [
        | inl q' ↦ q ∙ sym q'
        | inr (b, u, r', f', vu) ↦ absurd (omega (arith, ge, ap rank q, ap rank r'))
      ]
      | inr (c, w, r, f, vw) ↦ elim (match_chart_lem field charts' v').1 [
        | inl q' ↦ absurd (omega (arith, le, ap rank q', ap rank r))
        | inr (b, u, r', f', vu) ↦
            let e : c.chart ≡ b.chart =
              strip-same_len c.chart b.chart "-" field w u (version_of-strip c.chart field w vw)
                (version_of-strip b.chart field u vu)
                (omega (arith, le, ge, ap rank r, ap rank r')) in
            let cb : c ≡ b =
              some_inj c c b (sym f ∙ same c.chart ∙ ap (λ k. find k charts') e ∙ f') in
            let wu : w ≡ u = some_inj w w u (sym vw ∙ ap (λ k. version_of k field) e ∙ vu) in
            r ∙ ap some (ap₂ (λ x y. (x, y)) cb wu) ∙ sym r'
      ]
    ]
