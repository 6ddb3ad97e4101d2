-- ===== src/Applier/Matcher/Render.antt =====
-- The matcher of internal/applier/parse.go against the printing of a text from its groups.
use Prim.Native.String.{String, [], ◌∷◌}
use Prim.Native.String.append
use Prim.Native.Char.{Char, code}
use aicrme.Prelude.{
  ◌≡◌, refl, ap, subst, sym, ◌∙◌, str_append, str_eq, eq_iff, Bool, true, false, not, ◌&&◌, ◌||◌,
  Option, none, some, arith, ◌==◌, if◌then◌else◌, is_some, Bool-cases, inl, inr,
}
use mathlib.Core.List.{List, [] as nil, ◌∷◌ as cons}
use aicrme.Applier.Matcher.{Item, lit, plus, star, skip, either, strip, run, pass, captures}

-- The text with the given groups; a run that is skipped is left out.
unfoldable pub render : List Item → List String → String
render nil cs = []
render (cons (lit l) items) cs = str_append l (render items cs)
render (cons (skip p) items) cs = render items cs
render (cons (plus p) items) nil = []
render (cons (plus p) items) (cons c cs) = str_append c (render items cs)
render (cons (star p) items) nil = []
render (cons (star p) items) (cons c cs) = str_append c (render items cs)
render (cons (either a b) items) nil = []
render (cons (either a b) items) (cons c cs) = str_append c (render items cs)

unfoldable pub consists_of : (Char → Bool) → String → Bool
consists_of p [] = true
consists_of p (c ∷ s) = p c && consists_of p s

-- A run of the class ends here.
unfoldable pub stops : (Char → Bool) → String → Bool
stops p [] = true
stops p (c ∷ s) = not (p c)

unfoldable pub is_filled : String → Bool
is_filled [] = false
is_filled (c ∷ s) = true

-- The groups fit the items: each is of its class, and what is printed behind it ends it.
unfoldable pub fits : List Item → List String → Bool
fits nil nil = true
fits nil (cons c cs) = false
fits (cons (lit l) items) cs = fits items cs
fits (cons (skip p) items) cs = stops p (render items cs) && fits items cs
fits (cons (plus p) items) nil = false
fits (cons (plus p) items) (cons c cs) =
    is_filled c && consists_of p c && stops p (render items cs) && fits items cs
fits (cons (star p) items) nil = false
fits (cons (star p) items) (cons c cs) =
    consists_of p c && stops p (render items cs) && fits items cs
fits (cons (either a b) items) nil = false
fits (cons (either a b) items) (cons c cs) =
    (str_eq c a || (str_eq c b && not (is_some (strip a (str_append c (render items cs))))))
    && fits items cs

pub append_nil : (s : String) → str_append s [] ≡ s
append_nil [] = append.nil []
append_nil (c ∷ s) = append.cons c s [] ∙ ap (◌∷◌ c) (append_nil s)

pub append_assoc : (a b c : String) → str_append (str_append a b) c ≡ str_append a (str_append b c)
append_assoc [] b c = rw (append.nil b, append.nil (str_append b c)) refl
append_assoc (x ∷ a) b c =
    rw (append.cons x a b, append.cons x (str_append a b) c, append.cons x a (str_append b c))
      (ap (◌∷◌ x) (append_assoc a b c))

pub strip-append : (l s : String) → strip l (str_append l s) ≡ some s
unfolding strip
strip-append [] s = ap some (append.nil s)
strip-append (c ∷ l) s = rw (append.cons c l s) (ground (arith, strip-append l s))

strip-same : (c l s : String) → c ≡ l → strip l (str_append c s) ≡ some s
strip-same c l s e = subst (λ m. strip m (str_append c s) ≡ some s) e (strip-append c s)

is_some-none {ℓ} : {A : Type ℓ} (o : Option A) → is_some o ≡ false → o ≡ none
is_some-none none h = refl
is_some-none (some a) h = absurd (ground (arith, h))

run-settles :
    (p : Char → Bool) (k : String → Option (List String)) (got c rest : String) (cs : List String)
    → consists_of p c ≡ true
    → stops p rest ≡ true
    → k rest ≡ some cs
    → run p k got (str_append c rest) ≡ some (cons (str_append got c) cs)
unfolding run consists_of stops
run-settles p k got [] [] cs h e q = rw (append.nil [], append_nil got, q) refl
run-settles p k got [] (d ∷ rest) cs h e q =
    rw (append.nil (d ∷ rest), append_nil got) (ground (arith, h, e, q))
run-settles p k got (c ∷ s) rest cs h e q =
    let more = run-settles p k (str_append got (c ∷ [])) s rest cs (ground (arith, h)) e q in
    let first : p c ≡ true = ground (arith, h) in
    rw
      (
        append.cons c s rest,
        first,
        more,
        append_assoc got (c ∷ []) s,
        append.cons c [] s,
        append.nil s,
      )
      refl

pass-settles :
    (p : Char → Bool) (k : String → Option (List String)) (rest : String) (cs : List String)
    → stops p rest ≡ true
    → k rest ≡ some cs
    → pass p k rest ≡ some cs
unfolding pass stops
pass-settles p k [] cs e q = q
pass-settles p k (d ∷ rest) cs e q = ground (arith, e, q)

-- A text that is printed from groups that fit the items has exactly these groups.
pub captures-render :
    (items : List Item) (cs : List String)
    → fits items cs ≡ true
    → captures items (render items cs) ≡ some cs
unfolding captures render fits is_filled consists_of
captures-render nil nil h = refl
captures-render nil (cons c cs) h = absurd (ground (arith, h))
captures-render (cons (lit l) items) cs h =
    rw (strip-append l (render items cs)) (captures-render items cs h)
captures-render (cons (skip p) items) cs h =
    pass-settles p (captures items) (render items cs) cs (ground (arith, h))
      (captures-render items cs (ground (arith, h)))
captures-render (cons (plus p) items) nil h = absurd (ground (arith, h))
captures-render (cons (plus p) items) (cons [] cs) h = absurd (ground (arith, h))
captures-render (cons (plus p) items) (cons (c ∷ s) cs) h =
    let more =
      run-settles p (captures items) (c ∷ []) s (render items cs) cs (ground (arith, h))
        (ground (arith, h)) (captures-render items cs (ground (arith, h))) in
    let first : p c ≡ true = ground (arith, h) in
    rw (append.cons c s (render items cs), first, more, append.cons c [] s, append.nil s) refl
captures-render (cons (star p) items) nil h = absurd (ground (arith, h))
captures-render (cons (star p) items) (cons c cs) h =
    run-settles p (captures items) [] c (render items cs) cs (ground (arith, h)) (ground (arith, h))
      (captures-render items cs (ground (arith, h)))
    ∙ ap (λ s. some (cons s cs)) (append.nil c)
captures-render (cons (either a b) items) nil h = absurd (ground (arith, h))
captures-render (cons (either a b) items) (cons c cs) h =
    let more = captures-render items cs (ground (arith, h)) in
    let r = render items cs in
    elim (Bool-cases (str_eq c a)) [
      | inl q ↦
          rw (strip-same c a r ((eq_iff c a).0 q), more)
            (ap (λ s. some (cons s cs)) (sym ((eq_iff c a).0 q)))
      | inr q ↦
          rw
            (
              is_some-none (strip a (str_append c r)) (ground (arith, h, q)),
              strip-same c b r ((eq_iff c b).0 (ground (arith, h, q))),
              more,
            )
            (ap (λ s. some (cons s cs)) (sym ((eq_iff c b).0 (ground (arith, h, q)))))
    ]

pub stops-append :
    (p : Char → Bool) (l s : String)
    → is_filled l ≡ true
    → stops p l ≡ true
    → stops p (str_append l s) ≡ true
unfolding stops is_filled
stops-append p [] s h e = absurd (ground (arith, h))
stops-append p (c ∷ l) s h e = rw (append.cons c l s) e

-- The two texts differ within the shorter one.
unfoldable pub clash : String → String → Bool
clash [] m = false
clash (c ∷ l) [] = false
clash (c ∷ l) (d ∷ m) = if code c == code d then clash l m else true

pub strip-clash : (l m s : String) → clash l m ≡ true → strip l (str_append m s) ≡ none
unfolding strip clash
strip-clash [] m s h = absurd (ground (arith, h))
strip-clash (c ∷ l) [] s h = absurd (ground (arith, h))
strip-clash (c ∷ l) (d ∷ m) s h = rw (append.cons d m s) (ground (arith, h, strip-clash l m s))

-- A run that reads one character too much gives it back.
pub run-backs :
    (p : Char → Bool) (k : String → Option (List String)) (got c : String) (d : Char)
    (rest : String) (cs : List String)
    → consists_of p c ≡ true
    → stops p rest ≡ true
    → k rest ≡ none
    → k (d ∷ rest) ≡ some cs
    → run p k got (str_append c (d ∷ rest)) ≡ some (cons (str_append got c) cs)
unfolding run consists_of stops
run-backs p k got [] d [] cs h e q r = rw (append.nil (d ∷ []), append_nil got, q, r) (ground arith)
run-backs p k got [] d (x ∷ rest) cs h e q r =
    rw (append.nil (d ∷ x ∷ rest), append_nil got) (ground (arith, h, e, q, r))
run-backs p k got (c ∷ s) d rest cs h e q r =
    let more = run-backs p k (str_append got (c ∷ [])) s d rest cs (ground (arith, h)) e q r in
    let first : p c ≡ true = ground (arith, h) in
    rw
      (
        append.cons c s (d ∷ rest),
        first,
        more,
        append_assoc got (c ∷ []) s,
        append.cons c [] s,
        append.nil s,
      )
      refl
