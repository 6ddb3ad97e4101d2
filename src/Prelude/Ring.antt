-- ===== src/Prelude/Ring.antt =====
-- A circular buffer against the plain list of what it holds. `d` stands for what is never read.
use native.Mathlib.Nat.{mod-lt, mod-eq_of_lt, mod-eq-sub-mod, mod-add-mod}
use Prim.Native.Nat.{ℕ, zero, suc, ◌+◌, ◌-◌, ◌%◌, ◌≤◌, ◌<◌}
use mathlib.Core.Path.{◌≡◌, refl, sym, ap, ap₂, ◌∙◌}
use mathlib.Core.Logic.{◌≢◌}
use mathlib.Core.List.{List, [], ◌∷◌, ◌++◌}
use native.Mathlib.Omega.{arith}
use native.Mathlib.Decide.{dec_lt}
use aicrme.Prelude.Tests.{ltb, if◌then◌else◌, lt→ltb, ge→ltb}
use aicrme.Prelude.Lists.{
  length, get_or, set, drop, get_or-set_self, get_or-set_ne, length-append, length-drop,
  drop-append, drop-drop,
}

-- Within one turn no slot but the first is `head`.
turn : (cap head m : ℕ) → head < cap → 1 ≤ m → m < cap → (head + m) % cap ≢ head
turn cap head m h l u e = elim (dec_lt (head + m) cap) [
  | yes p ↦ absurd (omega (arith, sym (mod-eq_of_lt p) ∙ e))
  | no p ↦ absurd (
      omega (
        arith,
        sym (mod-eq_of_lt {n = head + m - cap} {m = cap} (omega arith))
            ∙ sym (mod-eq-sub-mod {n = head + m} {m = cap} (omega arith))
            ∙ e,
      ))
]

-- Before the first turn the slots in use are apart from the next one.
apart : (cap head m n : ℕ) → head ≡ 0 → m < n → n < cap → (head + m) % cap ≢ (head + n) % cap
apart cap head m n z l u e = absurd (
    omega (
      arith,
      sym (mod-eq_of_lt {n = head + m} {m = cap} (omega arith))
          ∙ e
          ∙ mod-eq_of_lt {n = head + n} {m = cap} (omega arith),
    ))

module _ {ℓ} {A : Type ℓ} (d : A) where
  -- `k` slots from the `i`-th after `head`.
  unfoldable pub window : List A → ℕ → ℕ → ℕ → ℕ → List A
  window ring cap head i zero = []
  window ring cap head i (suc k) = get_or ring ((head + i) % cap) d ∷ window ring cap head (suc i) k

  -- A write to a slot outside the window is not seen.
  pub window-set_ne :
      (ring : List A) (cap head j : ℕ) (e : A) (i k : ℕ)
      → ((m : ℕ) → i ≤ m → m < i + k → (head + m) % cap ≢ j)
      → window (set ring j e) cap head i k ≡ window ring cap head i k
  unfolding window
  window-set_ne ring cap head j e i zero h = refl
  window-set_ne ring cap head j e i (suc k) h =
      ap₂ ◌∷◌ (get_or-set_ne ring e d (λ q. h i (omega arith) (omega arith) (sym q)))
        (window-set_ne ring cap head j e (suc i) k (λ m l u. h m (omega arith) (omega arith)))

  pub window-snoc :
      (ring : List A) (cap head i k : ℕ)
      → window ring cap head i (suc k)
        ≡ window ring cap head i k ++ get_or ring ((head + (i + k)) % cap) d ∷ []
  unfolding window
  window-snoc ring cap head i zero = ap (λ m. get_or ring ((head + m) % cap) d ∷ []) (omega arith)
  window-snoc ring cap head i (suc k) = ap (◌∷◌ (get_or ring ((head + i) % cap) d)) (
      window-snoc ring cap head (suc i) k
      ∙ ap (λ m. window ring cap head (suc i) k ++ get_or ring ((head + m) % cap) d ∷ [])
          (omega arith))

  pub window-shift :
      (ring : List A) (cap head i k : ℕ)
      → window ring cap ((head + 1) % cap) i k ≡ window ring cap head (suc i) k
  unfolding window
  window-shift ring cap head i zero = refl
  window-shift ring cap head i (suc k) =
      ap₂ ◌∷◌
        (ap (λ m. get_or ring m d) (mod-add-mod (head + 1) cap i ∙ ap (λ m. m % cap) (omega arith)))
        (window-shift ring cap head (suc i) k)

  pub length-window : (ring : List A) (cap head i k : ℕ) → length (window ring cap head i k) ≡ k
  unfolding window
  length-window ring cap head i zero = refl
  length-window ring cap head i (suc k) = ap suc (length-window ring cap head (suc i) k)

  -- Below the capacity the ring has not wrapped: the write goes behind the last item.
  pub window-grow :
      (ring : List A) (cap head count : ℕ) (e : A)
      → length ring ≡ cap
      → head ≡ 0
      → count < cap
      → window (set ring ((head + count) % cap) e) cap head 0 (count + 1)
        ≡ window ring cap head 0 count ++ e ∷ []
  window-grow ring cap head count e sized unwrapped p =
      ap (window ring' cap head 0) {y = suc count} (omega arith)
      ∙ window-snoc ring' cap head 0 count
      ∙ ap₂ (λ w x. w ++ x ∷ [])
          (window-set_ne ring cap head slot e 0 count
            (λ m l u. apart cap head m count unwrapped (omega arith) p))
          (ap (λ m. get_or ring' ((head + m) % cap) d) (omega arith)
            ∙ get_or-set_self ring slot e d (rw sized (mod-lt _ (omega arith))))
    where
      slot : ℕ
      slot = (head + count) % cap

      ring' : List A
      ring' = set ring slot e

  -- At the capacity the write replaces the oldest item, and the next one becomes the oldest.
  pub window-slide :
      (ring : List A) (cap head k : ℕ) (e : A)
      → length ring ≡ cap
      → head < cap
      → cap ≡ suc k
      → window (set ring head e) cap ((head + 1) % cap) 0 (suc k)
        ≡ drop 1 (window ring cap head 0 (suc k)) ++ e ∷ []
  unfolding window
  window-slide ring cap head k e sized head_in q =
      window-shift ring' cap head 0 (suc k)
      ∙ window-snoc ring' cap head 1 k
      ∙ ap₂ (λ w x. w ++ x ∷ [])
          (window-set_ne ring cap head head e 1 k
            (λ m l u. turn cap head m head_in l (omega arith)))
          (ap (λ m. get_or ring' m d) back ∙ get_or-set_self ring head e d (rw sized head_in))
    where
      ring' : List A
      ring' = set ring head e

      back : (head + (1 + k)) % cap ≡ head
      back =
          mod-eq-sub-mod {n = head + (1 + k)} {m = cap} (omega arith)
          ∙ ap (λ m. m % cap) {y = head} (omega arith)
          ∙ mod-eq_of_lt head_in

module _ {ℓ} {A : Type ℓ} where
  -- The abstract buffer: append, then drop the oldest when it is over its bound.
  abbrev pub push_bounded : ℕ → List A → A → List A
  push_bounded cap xs e = if ltb (length xs) cap then xs ++ e ∷ [] else drop 1 xs ++ e ∷ []

  abbrev pub keep_last : ℕ → List A → List A
  keep_last cap xs = drop (length xs - cap) xs

  pub keep_last-append :
      (cap : ℕ) (xs ys : List A) → keep_last cap (keep_last cap xs ++ ys) ≡ keep_last cap (xs ++ ys)
  keep_last-append cap xs ys =
      ap (keep_last cap) (sym (drop-append (length xs - cap) xs ys (omega arith)))
      ∙ drop-drop (length (drop (length xs - cap) (xs ++ ys)) - cap) (length xs - cap) (xs ++ ys)
      ∙ ap (λ k. drop k (xs ++ ys))
          (omega (arith, length-drop (length xs - cap) (xs ++ ys), length-append xs ys))

  pub push_bounded-eq-keep_last :
      (cap : ℕ) (xs : List A) (e : A)
      → length xs ≤ cap
      → 0 < cap
      → push_bounded cap xs e ≡ keep_last cap (xs ++ e ∷ [])
  push_bounded-eq-keep_last cap xs e h p = elim (dec_lt (length xs) cap) [
    | yes q ↦
        rw (lt→ltb _ _ q)
          (ap (λ k. drop k (xs ++ e ∷ [])) {x = 0} (omega (arith, length-append xs (e ∷ []))))
    | no q ↦ rw (ge→ltb _ _ q) (
        sym (drop-append 1 xs (e ∷ []) (omega arith))
        ∙ ap (λ k. drop k (xs ++ e ∷ [])) {x = 1} (omega (arith, length-append xs (e ∷ []))))
  ]
