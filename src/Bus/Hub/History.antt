-- ===== src/Bus/Hub/History.antt =====
-- internal/bus/bus.go over any number of publications: numbering, retention and the filter.
use mathlib.Core.List.{append-nil, append_assoc}
use aicrme.Prelude.{
  ℕ, zero, suc, ◌+◌, ◌-◌, ◌%◌, ◌^◌, ◌<◌, ◌≡◌, refl, sym, ap, ap₂, ◌∙◌, List, [], ◌∷◌, ◌++◌, arith,
  ltb, lt→ltb, ge→ltb, dec_lt, length, drop, select, drop-nil,
}
use aicrme.Bus.Event.{Event, zero_event}
use aicrme.Prelude.Ring.{
  window, push_bounded, keep_last, keep_last-append, push_bounded-eq-keep_last,
}
use aicrme.Bus.Hub.{Hub, stamp, retain, fan_out, publish, since_loop}
use aicrme.Bus.Hub.Ring.{
  view, IsRing, retain-IsRing, view-retain, length-view, IsRing-frame, retain-fields,
}

-- Publications one after the other, each with the time at which it is made.
unfoldable pub publish_all : List (ℕ × Event) → Hub → Hub
publish_all [] b = b
publish_all ((now, e) ∷ es) b = publish_all es (publish now e b).0

-- The events as they leave the hub, numbered from `id + 1` on.
unfoldable pub stamp_from : ℕ → List (ℕ × Event) → List Event
stamp_from id [] = []
stamp_from id ((now, e) ∷ es) = stamp (suc id) now e ∷ stamp_from (suc id) es

pub length-stamp_from : (id : ℕ) (es : List (ℕ × Event)) → length (stamp_from id es) ≡ length es
unfolding stamp_from
length-stamp_from id [] = refl
length-stamp_from id ((now, e) ∷ es) = ap suc (length-stamp_from (suc id) es)

numbered : ℕ → Hub → Hub
numbered id b = record b { next_id = id }

numbered-IsRing : (id : ℕ) (b : Hub) → IsRing b → IsRing (numbered id b)
unfolding numbered
numbered-IsRing id b v = IsRing-frame b id b.next_sub b.subs v

-- What one publication counts and hands out.
pub publish-fields :
    (now : ℕ) (e : Event) (b : Hub)
    → suc b.next_id < 2 ^ 64
    → ((publish now e b).0.next_id ≡ suc b.next_id)
      × ((publish now e b).0.capacity ≡ b.capacity)
      × ((publish now e b).0.subs ≡ fan_out (stamp (suc b.next_id) now e) b.subs)
unfolding publish
publish-fields now e b h =
    let id = (b.next_id + 1) % 2 ^ 64 in
    let f = retain-fields (stamp id now e) (record b { next_id = id }) in
    let q : id ≡ suc b.next_id = omega arith in
    (f.0 ∙ q, f.1, ap₂ (λ k s. fan_out (stamp k now e) s) q f.2)

view-publish :
    (now : ℕ) (e : Event) (b : Hub)
    → IsRing b
    → suc b.next_id < 2 ^ 64
    → view (publish now e b).0 ≡ push_bounded b.capacity (view b) (stamp (suc b.next_id) now e)
unfolding publish view numbered
view-publish now e b v h =
    let id = (b.next_id + 1) % 2 ^ 64 in
    let q : id ≡ suc b.next_id = omega arith in
    view-retain (stamp id now e) (numbered id b) (numbered-IsRing id b v)
    ∙ ap (λ k. push_bounded b.capacity (view b) (stamp k now e)) q

publish-IsRing : (now : ℕ) (e : Event) (b : Hub) → IsRing b → IsRing (publish now e b).0
unfolding publish numbered
publish-IsRing now e b v =
    let id = (b.next_id + 1) % 2 ^ 64 in
    let r = retain (stamp id now e) (numbered id b) in
    IsRing-frame r r.next_id r.next_sub (fan_out (stamp id now e) r.subs)
      (retain-IsRing (stamp id now e) (numbered id b) (numbered-IsRing id b v))

-- After any number of publications the buffer holds the last `capacity` of all the events.
pub view-publish_all :
    (es : List (ℕ × Event)) (b : Hub) (sent : List Event)
    → IsRing b
    → b.next_id + length es < 2 ^ 64
    → view b ≡ keep_last b.capacity sent
    → view (publish_all es b) ≡ keep_last b.capacity (sent ++ stamp_from b.next_id es)
unfolding publish_all stamp_from
view-publish_all [] b sent v h r = r ∙ ap (keep_last b.capacity) (sym (append-nil sent))
view-publish_all ((now, e) ∷ es) b sent v h r =
    let f = publish-fields now e b (omega arith) in
    let b' = (publish now e b).0 in
    let e' = stamp (suc b.next_id) now e in
    let cap = b.capacity in
    let one : view b' ≡ keep_last b'.capacity (sent ++ e' ∷ []) =
      view-publish now e b v (omega arith)
      ∙ push_bounded-eq-keep_last cap (view b) e' (omega (arith, length-view b, v)) v.positive
      ∙ ap (λ xs. keep_last cap (xs ++ e' ∷ [])) r
      ∙ keep_last-append cap sent (e' ∷ [])
      ∙ ap (λ c. keep_last c (sent ++ e' ∷ [])) (sym f.1) in
    view-publish_all es b' (sent ++ e' ∷ []) (publish-IsRing now e b v) (omega (arith, f.0)) one
    ∙ ap₂ (λ c k. keep_last c ((sent ++ e' ∷ []) ++ stamp_from k es)) f.1 f.0
    ∙ ap (keep_last cap) (append_assoc sent (e' ∷ []) (stamp_from (suc b.next_id) es))

pub publish_all-fields :
    (es : List (ℕ × Event)) (b : Hub)
    → b.next_id + length es < 2 ^ 64
    → ((publish_all es b).next_id ≡ b.next_id + length es)
      × ((publish_all es b).capacity ≡ b.capacity)
unfolding publish_all
publish_all-fields [] b h = (omega arith, refl)
publish_all-fields ((now, e) ∷ es) b h =
    let f = publish-fields now e b (omega arith) in
    let g = publish_all-fields es (publish now e b).0 (omega (arith, f.0)) in
    (omega (arith, g.0, f.0), g.1 ∙ f.1)

-- The loop of `since` filters the buffer.
pub since_loop-eq-select :
    (b : Hub) (cursor i k : ℕ)
    → since_loop b cursor i k
      ≡ select (λ e. ltb cursor e.id) (window zero_event b.ring b.capacity b.head i k)
unfolding since_loop window
since_loop-eq-select b cursor i zero = refl
since_loop-eq-select b cursor i (suc k) = ground (arith, since_loop-eq-select b cursor (suc i) k)

-- Events are numbered in a row, so the filter by number cuts off a prefix.
pub select-stamp_from :
    (cursor k : ℕ) (es : List (ℕ × Event))
    → select (λ e. ltb cursor e.id) (stamp_from k es) ≡ drop (cursor - k) (stamp_from k es)
unfolding stamp_from
select-stamp_from cursor k [] = sym (drop-nil (cursor - k))
select-stamp_from cursor k ((now, e) ∷ es) = elim (dec_lt cursor (suc k)) [
  | yes p ↦ rw (lt→ltb _ _ p) (
      ap (◌∷◌ (stamp (suc k) now e)) (
        select-stamp_from cursor (suc k) es
        ∙ ap (λ m. drop m (stamp_from (suc k) es)) {y = 0} (omega arith))
      ∙ ap (λ d. drop d (stamp (suc k) now e ∷ stamp_from (suc k) es)) {x = 0} (omega arith))
  | no p ↦ rw (ge→ltb _ _ p) (
      select-stamp_from cursor (suc k) es
      ∙ ap (λ d. drop d (stamp (suc k) now e ∷ stamp_from (suc k) es)) {x = suc (cursor - suc k)}
          (omega arith))
]

pub drop-stamp_from :
    (m k : ℕ) (es : List (ℕ × Event)) → drop m (stamp_from k es) ≡ stamp_from (k + m) (drop m es)
unfolding stamp_from
drop-stamp_from zero k es = ap (λ n. stamp_from n es) (omega arith)
drop-stamp_from (suc m) k [] = refl
drop-stamp_from (suc m) k ((now, e) ∷ es) =
    drop-stamp_from m (suc k) es ∙ ap (λ n. stamp_from n (drop m es)) (omega arith)
