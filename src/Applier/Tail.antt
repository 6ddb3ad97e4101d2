-- ===== src/Applier/Tail.antt =====
-- internal/applier/exec.go: the ring that keeps the last lines of the output.
use aicrme.Prelude.{
  ℕ, zero, suc, ◌+◌, ◌-◌, ◌%◌, ◌≤◌, ◌<◌, ◌≡◌, refl, sym, ap, subst, ◌∙◌, String, List, [], ◌∷◌,
  ◌++◌, arith, ltb, lt→ltb, ge→ltb, dec_lt, if◌then◌else◌, length, get_or, set, replicate, drop,
  length-set, length-replicate,
}
use mathlib.Core.List.{append-nil, append_assoc}
use native.Mathlib.Nat.{mod-lt}
use aicrme.Prelude.Ring.{
  window, length-window, window-grow, window-slide, push_bounded, push_bounded-eq-keep_last,
  keep_last, keep_last-append,
}

pub record Ring : Type 0 where
  pub items : List String
  pub head : ℕ
  pub count : ℕ

unfoldable pub new_ring : ℕ → Ring
new_ring n = record { items = replicate n ""; head = 0; count = 0 }

unfoldable pub add : String → Ring → Ring
add s r =
    if ltb r.count (length r.items)
    then record r {
      items = set r.items ((r.head + r.count) % length r.items) s;
      count = r.count + 1;
    }
    else record r { items = set r.items r.head s; head = (r.head + 1) % length r.items }

-- The loop of `lines`, from its `i`-th round on, with `k` rounds to go.
unfoldable pub lines_loop : Ring → ℕ → ℕ → List String
lines_loop r i zero = []
lines_loop r i (suc k) = get_or r.items ((r.head + i) % length r.items) "" ∷ lines_loop r (i + 1) k

unfoldable pub lines : Ring → List String
unfolding lines_loop
lines r = lines_loop r 0 r.count

unfoldable pub add_all : List String → Ring → Ring
unfolding add
add_all [] r = r
add_all (x ∷ xs) r = add_all xs (add x r)

pub lines_loop-eq-window :
    (r : Ring) (i k : ℕ) → lines_loop r i k ≡ window "" r.items (length r.items) r.head i k
unfolding lines_loop window
lines_loop-eq-window r i zero = refl
lines_loop-eq-window r i (suc k) = ap (◌∷◌ (get_or r.items ((r.head + i) % length r.items) "")) (
    lines_loop-eq-window r (i + 1) k
    ∙ ap (λ j. window "" r.items (length r.items) r.head j k) (omega arith))

lines-eq-window : (r : Ring) → lines r ≡ window "" r.items (length r.items) r.head 0 r.count
unfolding lines
lines-eq-window r = lines_loop-eq-window r 0 r.count

record IsRing (n : ℕ) (r : Ring) : Type 0 where
  sized : length r.items ≡ n
  positive : 0 < n
  head_in : r.head < n
  count_in : r.count ≤ n
  unwrapped : r.count < n → r.head ≡ 0

new_ring-IsRing : (n : ℕ) → 0 < n → IsRing n (new_ring n)
unfolding new_ring
new_ring-IsRing n p = ground (arith, p, length-replicate {A = String} n "")

add-IsRing : (n : ℕ) (s : String) (r : Ring) → IsRing n r → IsRing n (add s r)
unfolding add
add-IsRing n s r v = ground (
  arith,
  v,
  length-set r.items ((r.head + r.count) % length r.items) s,
  length-set r.items r.head s,
  next_in,
)
  where
    next_in : (r.head + 1) % length r.items < n
    next_in =
        subst (λ m. (r.head + 1) % length r.items < m) v.sized
          (mod-lt (r.head + 1) (omega (arith, v.sized, v.positive)))

lines-add :
    (n : ℕ) (s : String) (r : Ring) → IsRing n r → lines (add s r) ≡ push_bounded n (lines r) s
unfolding add
lines-add n s r v =
    lines-eq-window (add s r) ∙ step ∙ sym (ap (λ l. push_bounded n l s) (lines-eq-window r))
  where
    grow :
        r.count < n
        → window "" (set r.items ((r.head + r.count) % n) s) n r.head 0 (r.count + 1)
          ≡ window "" r.items n r.head 0 r.count ++ s ∷ []
    grow p = window-grow "" r.items n r.head r.count s v.sized (v.unwrapped p) p

    slide :
        ¬ (r.count < n)
        → window "" (set r.items r.head s) n ((r.head + 1) % n) 0 r.count
          ≡ drop 1 (window "" r.items n r.head 0 r.count) ++ s ∷ []
    slide p =
        subst
          (λ m.
            window "" (set r.items r.head s) n ((r.head + 1) % n) 0 m
            ≡ drop 1 (window "" r.items n r.head 0 m) ++ s ∷ [])
          (omega (arith, p, v.positive, v.count_in))
          (window-slide "" r.items n r.head (n - 1) s v.sized v.head_in (omega (arith, v.positive)))

    step :
        window "" (add s r).items (length (add s r).items) (add s r).head 0 (add s r).count
        ≡ push_bounded n (window "" r.items (length r.items) r.head 0 r.count) s
    step = elim (dec_lt r.count n) [
      | yes p ↦
          rw
            (
              v.sized,
              lt→ltb _ _ p,
              length-set r.items ((r.head + r.count) % n) s,
              length-window "" r.items n r.head 0 r.count,
              v.sized,
              lt→ltb _ _ p,
            )
            (grow p)
      | no p ↦
          rw
            (
              v.sized,
              ge→ltb _ _ p,
              length-set r.items r.head s,
              length-window "" r.items n r.head 0 r.count,
              v.sized,
              ge→ltb _ _ p,
            )
            (slide p)
    ]

lines-add_all_from :
    (n : ℕ) (xs sent : List String) (r : Ring)
    → IsRing n r
    → lines r ≡ keep_last n sent
    → lines (add_all xs r) ≡ keep_last n (sent ++ xs)
unfolding add_all
lines-add_all_from n [] sent r v e = e ∙ ap (keep_last n) (sym (append-nil sent))
lines-add_all_from n (x ∷ xs) sent r v e =
    let count : length (lines r) ≡ r.count =
      ap length (lines-eq-window r) ∙ length-window "" r.items (length r.items) r.head 0 r.count in
    let one : lines (add x r) ≡ keep_last n (sent ++ x ∷ []) =
      lines-add n x r v
      ∙ push_bounded-eq-keep_last n (lines r) x (omega (arith, count, v.count_in)) v.positive
      ∙ ap (λ l. keep_last n (l ++ x ∷ [])) e
      ∙ keep_last-append n sent (x ∷ []) in
    lines-add_all_from n xs (sent ++ x ∷ []) (add x r) (add-IsRing n x r v) one
    ∙ ap (keep_last n) (append_assoc sent (x ∷ []) xs)

-- After any lines the ring of size `n > 0` holds the last `n` of them, in order.
pub lines-add_all :
    (n : ℕ) (xs : List String) → 0 < n → lines (add_all xs (new_ring n)) ≡ keep_last n xs
unfolding new_ring lines
lines-add_all n xs p =
    lines-add_all_from n xs [] (new_ring n) (new_ring-IsRing n p)
      (ap (λ k. drop k []) {x = 0} (omega arith))
