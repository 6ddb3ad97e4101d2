-- ===== src/Clear/Survey/Verdicts.antt =====
-- internal/clear/survey.go: what the rows of a survey say, and their order.
use aicrme.Prelude.{
  ℕ, ◌+◌, ◌≡◌, refl, ap, ◌∙◌, String, Bool, true, false, not, ◌&&◌, ◌||◌, List, [], ◌∷◌, ◌++◌,
  Option, none, some, arith, leb, ◌==◌, if◌then◌else◌, all, All, select, Bool-cases, inl, inr,
}
use aicrme.Clear.Command.{Exec}
use aicrme.Clear.Universe.{Component, ComponentUniverse}
use aicrme.Clear.Charts.{match_chart}
use aicrme.Clear.Listing.{HelmRelease, Formats, driver_mode}
use aicrme.Clear.Recommend.{Release, install_window, judge_each, recommend}
use aicrme.Clear.Recommend.Suggested.{is_recent, all_dated, judge-frame, recommend-suggests}
use aicrme.Clear.Survey.{
  Found, found_release, take_release, take_releases, order_of, insert_release, sort_releases,
  is_empty, survey_of, overlay_reasons, driver_reasons,
}

-- As long as there is no reason against it, each release has its date.
abbrev is_dated : Found → Bool
is_dated found = not (is_empty found.reasons) || all_dated found.matched

all-append {ℓ} :
    {A : Type ℓ} (p : A → Bool) (xs ys : List A) → all p (xs ++ ys) ≡ (all p xs && all p ys)
all-append p [] ys = refl
all-append p (x ∷ xs) ys = ground (arith, all-append p xs ys)

is_empty-snoc {ℓ} : {A : Type ℓ} (xs : List A) (a : A) → is_empty (xs ++ a ∷ []) ≡ false
is_empty-snoc [] a = refl
is_empty-snoc (x ∷ xs) a = refl

is_empty-append {ℓ} :
    {A : Type ℓ} (xs ys : List A) → is_empty (xs ++ ys) ≡ true → is_empty xs ≡ true
is_empty-append [] ys h = refl
is_empty-append (x ∷ xs) ys h = h

take_release-dated :
    (formats : Formats) (exec : Exec) (hr : HelmRelease) (m : Option (Component × String))
    (found : Found)
    → is_dated found ≡ true
    → is_dated (take_release formats exec hr m found) ≡ true
unfolding take_release
take_release-dated formats exec hr none found h = h
take_release-dated formats exec hr (some (comp, version)) found h =
    let r = found_release formats exec hr comp version in
    elim (Bool-cases (r.first_deployed == 0)) [
      | inl q ↦ rw (q, is_empty-snoc found.reasons _) refl
      | inr q ↦
          rw (q, all-append (λ s. not (s.first_deployed == 0)) found.matched (r ∷ []))
            (ground (arith, h, q))
    ]

take_releases-dated :
    (formats : Formats) (exec : Exec) (charts : List (String × Component)) (raw : List HelmRelease)
    (found : Found)
    → is_dated found ≡ true
    → is_dated (take_releases formats exec charts raw found) ≡ true
unfolding take_releases
take_releases-dated formats exec charts [] found h = h
take_releases-dated formats exec charts (hr ∷ raw) found h =
    let m = match_chart hr.chart charts in
    take_releases-dated formats exec charts raw (take_release formats exec hr m found)
      (take_release-dated formats exec hr m found h)

module _ (order : List (String × ℕ)) where
  all-insert_release :
      (p : Release → Bool) (r : Release) (rs : List Release)
      → all p (insert_release order r rs) ≡ (p r && all p rs)
  unfolding insert_release
  all-insert_release p r [] = refl
  all-insert_release p r (s ∷ rs) = ground (arith, all-insert_release p r rs)

  all-sort_releases :
      (p : Release → Bool) (rs : List Release) → all p (sort_releases order rs) ≡ all p rs
  unfolding sort_releases
  all-sort_releases p [] = refl
  all-sort_releases p (r ∷ rs) =
      all-insert_release p r (sort_releases order rs) ∙ ap (λ b. p r && b) (all-sort_releases p rs)

  All-insert_release {κ} :
      (P : Release → Type κ) (r : Release) (rs : List Release)
      → P r
      → All P rs
      → All P (insert_release order r rs)
  unfolding insert_release
  All-insert_release P r [] p ps = (p, tt)
  All-insert_release P r (s ∷ rs) p ps =
      elim (Bool-cases (leb (order_of order s) (order_of order r))) [
        | inl q ↦ rw q ((p, ps))
        | inr q ↦ rw q ((ps.0, All-insert_release P r rs p ps.1))
      ]

  All-sort_releases {κ} :
      (P : Release → Type κ) (rs : List Release) → All P rs → All P (sort_releases order rs)
  unfolding sort_releases
  All-sort_releases P [] ps = tt
  All-sort_releases P (r ∷ rs) ps =
      All-insert_release P r (sort_releases order rs) ps.0 (All-sort_releases P rs ps.1)

  -- Each row's order is at least that of the next one.
  abbrev is_falling : List Release → Bool
  is_falling [] = true
  is_falling (r ∷ []) = true
  is_falling (r ∷ s ∷ rs) = leb (order_of order s) (order_of order r) && is_falling (s ∷ rs)

  abbrev at_order : ℕ → List Release → List Release
  at_order k rs = select (λ r. order_of order r == k) rs

  insert_release-falling :
      (r : Release) (rs : List Release)
      → is_falling rs ≡ true
      → is_falling (insert_release order r rs) ≡ true
  unfolding insert_release
  insert_release-falling r [] h = refl
  insert_release-falling r (s ∷ []) h = ground arith
  insert_release-falling r (s ∷ t ∷ rs) h = ground (arith, h, insert_release-falling r (t ∷ rs))

  insert_release-at_order :
      (k : ℕ) (r : Release) (rs : List Release)
      → at_order k (insert_release order r rs) ≡ at_order k (r ∷ rs)
  unfolding insert_release
  insert_release-at_order k r [] = refl
  insert_release-at_order k r (s ∷ rs) = ground (arith, insert_release-at_order k r rs)

  -- The sort puts later components first and is stable: of the rows of each order it keeps all, in their order.
  sort_releases_stable :
      (rs : List Release)
      → (is_falling (sort_releases order rs) ≡ true)
        × ((k : ℕ) → at_order k (sort_releases order rs) ≡ at_order k rs)
  unfolding sort_releases
  sort_releases_stable [] = (refl, λ k. refl)
  sort_releases_stable (r ∷ rs) =
      let rest = sort_releases_stable rs in
      (
        insert_release-falling r (sort_releases order rs) rest.0,
        λ k.
            insert_release-at_order k r (sort_releases order rs)
            ∙ ap (λ l. if order_of order r == k then r ∷ l else l) (rest.1 k),
      )

is_recent-judge_each :
    (formats : Formats) (newest : ℕ) (complete : Bool) (rs : List Release) (t : ℕ)
    → is_recent (judge_each formats newest complete rs) t ≡ is_recent rs t
unfolding judge_each
is_recent-judge_each formats newest complete [] t = refl
is_recent-judge_each formats newest complete (r ∷ rs) t =
    rw (judge-frame formats newest complete r) (
      ap (λ b. leb r.first_deployed (t + install_window) && b)
        (is_recent-judge_each formats newest complete rs t))

All-map {ℓ κ ι} :
    {A : Type ℓ} (P : A → Type κ) (Q : A → Type ι)
    → ((a : A) → P a → Q a)
    → (xs : List A) → All P xs
    → All Q xs
All-map P Q f [] ps = tt
All-map P Q f (x ∷ xs) ps = (f x ps.0, All-map P Q f xs ps.1)

-- Exactly these rows of a survey are recommended: none unless the survey is complete, none that changes
-- the node, and none when another row was first deployed more than an hour after it.
pub survey_of-suggests :
    (formats : Formats) (exec : Exec) (uid : String) (u : ComponentUniverse)
    (raw : List HelmRelease)
    → let s = survey_of formats exec uid u raw in
      All
        (λ r.
          r.recommended ≡ (s.complete && not r.node_level && is_recent s.releases r.first_deployed))
        s.releases
unfolding survey_of recommend
survey_of-suggests formats exec uid u raw =
    let start : Found = record { reasons = overlay_reasons formats u; order = []; matched = [] } in
    let found = take_releases formats exec u.charts raw start in
    let reasons = found.reasons ++ driver_reasons (driver_mode formats exec) in
    let dated : is_dated found ≡ true =
      take_releases-dated formats exec u.charts raw start (ground arith) in
    let recent : (t : ℕ)
        → is_recent (sort_releases found.order (recommend formats found.matched (is_empty reasons)))
            t
          ≡ is_recent found.matched t =
      λ t.
        all-sort_releases found.order (λ s. leb s.first_deployed (t + install_window))
          (recommend formats found.matched (is_empty reasons))
        ∙ is_recent-judge_each formats _ _ found.matched t in
    All-sort_releases found.order _ (recommend formats found.matched (is_empty reasons)) (
      All-map _ _
        (λ r e.
          e
          ∙ ground (
            arith,
            dated,
            recent r.first_deployed,
            is_empty-append found.reasons (driver_reasons (driver_mode formats exec)),
          ))
        (recommend formats found.matched (is_empty reasons))
        (recommend-suggests formats found.matched (is_empty reasons)))
