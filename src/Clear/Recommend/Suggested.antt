-- ===== src/Clear/Recommend/Suggested.antt =====
-- internal/clear/recommend.go against a rule on each release by itself.
use aicrme.Prelude.{
  ℕ, ◌+◌, ◌≡◌, ◌∙◌, Bool, false, not, ◌&&◌, List, [], ◌∷◌, arith, ltb, leb, ◌==◌, if◌then◌else◌,
  all, All,
}
use aicrme.Clear.Listing.{Formats}
use aicrme.Clear.Recommend.{
  Release, install_window, gap, newest_of, has_evidence, judge, judge_each, recommend,
}

-- No release was first deployed more than an hour after `t`.
abbrev pub is_recent : List Release → ℕ → Bool
is_recent rs t = all (λ s. leb s.first_deployed (t + install_window)) rs

abbrev pub all_dated : List Release → Bool
all_dated rs = all (λ s. not (s.first_deployed == 0)) rs

leb-newest_of :
    (rs : List Release) (n t : ℕ)
    → leb (newest_of rs n) (t + install_window) ≡ (leb n (t + install_window) && is_recent rs t)
unfolding newest_of
leb-newest_of [] n t = ground arith
leb-newest_of (r ∷ rs) n t =
    leb-newest_of rs (if ltb n r.first_deployed then r.first_deployed else n) t ∙ ground arith

pub has_evidence-eq-all_dated :
    (rs : List Release) (complete : Bool) → has_evidence rs complete ≡ (complete && all_dated rs)
unfolding has_evidence
has_evidence-eq-all_dated [] complete = ground arith
has_evidence-eq-all_dated (r ∷ rs) complete =
    has_evidence-eq-all_dated rs (if r.first_deployed == 0 then false else complete) ∙ ground arith

ltb-gap : (newest t : ℕ) → ltb install_window (gap newest t) ≡ not (leb newest (t + install_window))
ltb-gap newest t = ground arith

-- The rule for one release among `rs`.
abbrev pub suggests : List Release → Bool → Release → Bool
suggests rs complete r =
    complete && all_dated rs && not r.node_level && is_recent rs r.first_deployed

judge-recommended :
    (formats : Formats) (newest : ℕ) (complete : Bool) (r : Release)
    → (judge formats newest complete r).recommended
      ≡ (complete && not r.node_level && leb newest (r.first_deployed + install_window))
unfolding judge
judge-recommended formats newest complete r = ground (arith, ltb-gap newest r.first_deployed)

-- A release keeps all but its suggestion and the reason.
pub judge-frame :
    (formats : Formats) (newest : ℕ) (complete : Bool) (r : Release)
    → judge formats newest complete r ≡ record r {
      recommended = (judge formats newest complete r).recommended;
      reason = (judge formats newest complete r).reason;
    }
unfolding judge
judge-frame formats newest complete r = ground arith

judge_each-suggests :
    (formats : Formats) (whole : List Release) (complete : Bool) (rs : List Release)
    → All
        (λ r. r.recommended ≡ suggests whole complete r)
        (judge_each formats (newest_of whole 0) (has_evidence whole complete) rs)
unfolding judge_each
judge_each-suggests formats whole complete [] = tt
judge_each-suggests formats whole complete (r ∷ rs) =
    (here, judge_each-suggests formats whole complete rs)
  where
    here :
        (judge formats (newest_of whole 0) (has_evidence whole complete) r).recommended
        ≡ suggests whole complete
            (judge formats (newest_of whole 0) (has_evidence whole complete) r)
    here = rw (judge-frame formats (newest_of whole 0) (has_evidence whole complete) r) (
        judge-recommended formats (newest_of whole 0) (has_evidence whole complete) r
        ∙ ground (
          arith,
          has_evidence-eq-all_dated whole complete,
          leb-newest_of whole 0 r.first_deployed,
        ))

-- A release is recommended exactly when the evidence is complete, every release found has a date, none
-- was first deployed more than an hour after it, and it does not change the node.
pub recommend-suggests :
    (formats : Formats) (rs : List Release) (complete : Bool)
    → All (λ r. r.recommended ≡ suggests rs complete r) (recommend formats rs complete)
unfolding recommend
recommend-suggests formats rs complete = judge_each-suggests formats rs complete rs
