-- ===== src/Clear/Listing/Pages.antt =====
-- internal/clear/releases.go: the pages of `listReleases` against the releases of the cluster.
use mathlib.Core.List.{append_assoc}
use aicrme.Prelude.{
  ℕ, zero, suc, ◌+◌, ◌*◌, ◌≤◌, ◌<◌, ◌≡◌, refl, sym, ap, ◌∙◌, String, List, [], ◌∷◌, ◌++◌, some,
  arith, lt→ltb, ge→ltb, dec_lt, length, drop, drop-drop, length-drop,
}
use aicrme.Clear.Command.{ok, Exec}
use aicrme.Clear.Listing.{
  HelmRelease, Formats, helm_page_size, list_argv, list_page, turn_page, list_from, list_releases,
}

abbrev pub take {ℓ} : {A : Type ℓ} → ℕ → List A → List A
take zero xs = []
take (suc n) [] = []
take (suc n) (x ∷ xs) = x ∷ take n xs

take-append-drop {ℓ} : {A : Type ℓ} (n : ℕ) (xs : List A) → take n xs ++ drop n xs ≡ xs
take-append-drop zero xs = refl
take-append-drop (suc n) [] = refl
take-append-drop (suc n) (x ∷ xs) = ap (◌∷◌ x) (take-append-drop n xs)

take-all {ℓ} : {A : Type ℓ} (n : ℕ) (xs : List A) → length (take n xs) < n → take n xs ≡ xs
take-all zero xs h = absurd (omega arith)
take-all (suc n) [] h = refl
take-all (suc n) (x ∷ xs) h = ap (◌∷◌ x) (take-all n xs (omega arith))

take-full {ℓ} : {A : Type ℓ} (n : ℕ) (xs : List A) → ¬ (length (take n xs) < n) → n ≤ length xs
take-full zero xs h = omega arith
take-full (suc n) [] h = absurd (h (omega arith))
take-full (suc n) (x ∷ xs) h = omega (arith, take-full n xs (λ p. h (omega arith)))

list_from_complete :
    (formats : Formats) (exec : Exec) (rs : List HelmRelease)
    (pages : (offset : ℕ)
      → list_page formats exec offset ≡ ok (take helm_page_size (drop offset rs)))
    (fuel offset : ℕ) (found : List HelmRelease)
    → offset ≤ length rs
    → length rs < offset + fuel * helm_page_size
    → list_from formats exec fuel offset found ≡ some (ok (found ++ drop offset rs))
unfolding list_from turn_page
list_from_complete formats exec rs pages zero offset found h g = absurd (omega arith)
list_from_complete formats exec rs pages (suc fuel) offset found h g =
    let rest = drop offset rs in
    let page = take helm_page_size rest in
    elim (dec_lt (length page) helm_page_size) [
      | yes p ↦
          rw (pages offset, lt→ltb _ _ p)
            (ap (λ l. some (ok (found ++ l))) (take-all helm_page_size rest p))
      | no p ↦
          rw (pages offset, ge→ltb _ _ p)
            (list_from_complete formats exec rs pages fuel (offset + helm_page_size) (found ++ page)
                (omega (arith, take-full helm_page_size rest p, length-drop offset rs))
                (omega arith)
              ∙ ap (λ l. some (ok ((found ++ page) ++ l)))
                  (sym (drop-drop helm_page_size offset rs))
              ∙ ap (λ l. some (ok l)) (append_assoc found page (drop helm_page_size rest))
              ∙ ap (λ l. some (ok (found ++ l))) (take-append-drop helm_page_size rest))
    ]

-- When helm answers as it documents for `--max` and `--offset`, a listing of any number of releases ends
-- and has each of them, in order, with one round more than there are full pages.
pub list_releases_complete :
    (formats : Formats) (exec : Exec) (printed : ℕ → String) (rs : List HelmRelease) (fuel : ℕ)
    → ((offset : ℕ) → exec (list_argv formats.itoa offset) ≡ ok (printed offset))
    → ((offset : ℕ)
        → formats.releases_of (printed offset) ≡ ok (take helm_page_size (drop offset rs)))
    → length rs < fuel * helm_page_size
    → list_releases formats exec fuel ≡ some (ok rs)
unfolding list_releases list_page
list_releases_complete formats exec printed rs fuel answered decoded h =
    list_from_complete formats exec rs (λ offset. rw (answered offset, decoded offset) refl) fuel 0
      [] (omega arith) (omega arith)
