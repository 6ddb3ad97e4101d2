-- ===== src/Bus/Hub/Replay.antt =====
-- What `Replay` and `Subscribe` of internal/bus/bus.go hand to a client.
use Prim.Native.Nat.{max}
use aicrme.Prelude.{
  Bool-cases, inl, inr, if◌then◌else◌, ℕ, suc, ◌+◌, ◌-◌, ◌^◌, ◌≤◌, ◌<◌, ◌≡◌, refl, sym, ap, ◌∙◌,
  List, [], ◌∷◌, ◌++◌, some, String, arith, ltb, if◌then◌else◌, ==_iff, lt→ltb, ge→ltb, length,
  drop, select, length-append, drop-drop, drop-nil,
}
use mathlib.Core.List.{append_assoc, append-nil}
use mathlib.Core.Option
use aicrme.Bus.Event.{Event}
use aicrme.Bus.Hub.{
  Hub, Channel, new, stamp, offer, fan_out, publish, since, subscribe, channel_of,
  subscriber_buffer,
}
use aicrme.Prelude.Ring.{window}
use aicrme.Bus.Hub.Ring.{view, new-IsRing}
use aicrme.Bus.Hub.History.{
  publish_all, stamp_from, publish-fields, view-publish_all, publish_all-fields,
  since_loop-eq-select, select-stamp_from, drop-stamp_from, length-stamp_from,
}

-- The hub after the publications `es`, from the start.
abbrev pub hub_after : ℕ → String → List (ℕ × Event) → Hub
hub_after n epoch es = publish_all es (new n epoch)

abbrev pub capacity_of : ℕ → ℕ
capacity_of n = if ltb n 1 then 1 else n

module _ (n : ℕ) (epoch : String) (es : List (ℕ × Event)) (few : length es < 2 ^ 64) where
  fields :
      ((hub_after n epoch es).next_id ≡ length es)
      × ((hub_after n epoch es).capacity ≡ capacity_of n)
  unfolding new
  fields = let f = publish_all-fields es (new n epoch) (omega arith) in (omega (arith, f.0), f.1)

  lost : ℕ
  lost = length es - capacity_of n

  view_after : view (hub_after n epoch es) ≡ drop lost (stamp_from 0 es)
  unfolding new view window lost
  view_after =
      view-publish_all es (new n epoch) [] (new-IsRing n epoch) (omega arith)
        (sym (drop-nil (0 - capacity_of n)))
      ∙ ap (λ k. drop (k - capacity_of n) (stamp_from 0 es)) (length-stamp_from 0 es)

  newer_than :
      (cursor : ℕ)
      → select (λ e. ltb cursor e.id) (view (hub_after n epoch es))
        ≡ drop (max cursor lost) (stamp_from 0 es)
  newer_than cursor =
      ap (select (λ e. ltb cursor e.id)) (view_after ∙ drop-stamp_from lost 0 es)
      ∙ select-stamp_from cursor (0 + lost) (drop lost es)
      ∙ ap (drop (cursor - (0 + lost))) (sym (drop-stamp_from lost 0 es))
      ∙ drop-drop (cursor - (0 + lost)) lost (stamp_from 0 es)
      ∙ ap (λ k. drop k (stamp_from 0 es)) (omega arith)

  since-eq-select :
      (cursor : ℕ)
      → since cursor (hub_after n epoch es)
        ≡ select
            (λ e. ltb (if ltb (length es) cursor then 0 else cursor) e.id)
            (view (hub_after n epoch es))
  unfolding since view
  since-eq-select cursor =
      since_loop-eq-select b (if ltb b.next_id cursor then 0 else cursor) 0 b.count
      ∙ ap (λ k. select (λ e. ltb (if ltb k cursor then 0 else cursor) e.id) (view b)) fields.0
    where
      b : Hub
      b = hub_after n epoch es

since_cases :
    (n : ℕ) (epoch : String) (es : List (ℕ × Event)) (cursor : ℕ)
    → length es < 2 ^ 64
    → (cursor ≤ length es
        → since cursor (hub_after n epoch es)
          ≡ drop (max cursor (length es - capacity_of n)) (stamp_from 0 es))
      × (length es < cursor
          → since cursor (hub_after n epoch es)
            ≡ drop (length es - capacity_of n) (stamp_from 0 es))
unfolding lost
since_cases n epoch es cursor few = (known, unknown)
  where
    known :
        cursor ≤ length es
        → since cursor (hub_after n epoch es)
          ≡ drop (max cursor (length es - capacity_of n)) (stamp_from 0 es)
    known h =
        since-eq-select n epoch es few cursor
        ∙ ap (λ c. select (λ e. ltb c e.id) (view (hub_after n epoch es)))
            (rw (ge→ltb (length es) cursor (omega arith)))
        ∙ newer_than n epoch es few cursor

    unknown :
        length es < cursor
        → since cursor (hub_after n epoch es) ≡ drop (length es - capacity_of n) (stamp_from 0 es)
    unknown h =
        since-eq-select n epoch es few cursor
        ∙ ap (λ c. select (λ e. ltb c e.id) (view (hub_after n epoch es)))
            (rw (lt→ltb (length es) cursor h))
        ∙ newer_than n epoch es few 0
        ∙ ap (λ k. drop k (stamp_from 0 es)) (omega arith)

-- A hub made with room for `n` events (at least one) has published fewer than 2 ^ 64 events. A client
-- whose cursor is a number that was given out is replayed exactly the events behind its cursor, in
-- order and with no gap, less those that no longer fit; a cursor never given out replays all that is
-- retained.
pub since_exact :
    (n : ℕ) (epoch : String) (es : List (ℕ × Event)) (cursor : ℕ)
    → length es < 2 ^ 64
    → since cursor (hub_after n epoch es)
      ≡ drop
          (max (if ltb (length es) cursor then 0 else cursor) (length es - capacity_of n))
          (stamp_from 0 es)
since_exact n epoch es cursor few = elim (Bool-cases (ltb (length es) cursor)) [
  | inl q ↦
      (since_cases n epoch es cursor few).1 (ground arith)
      ∙ rw q (ap (λ k. drop k (stamp_from 0 es)) (omega arith))
  | inr q ↦ rw q ((since_cases n epoch es cursor few).0 (ground arith))
]

-- One channel through a fan-out.
channel_of-fan_out :
    (e : Event) (id : ℕ) (subs : List (ℕ × Channel))
    → channel_of id (fan_out e subs) ≡ Option.map (offer e) (channel_of id subs)
unfolding channel_of fan_out
channel_of-fan_out e id [] = refl
channel_of-fan_out e id ((j, ch) ∷ subs) = ground (arith, channel_of-fan_out e id subs)

delivered :
    (es : List (ℕ × Event)) (b : Hub) (id : ℕ) (ch : Channel)
    → b.next_id + length es < 2 ^ 64
    → channel_of id b.subs ≡ some ch
    → length ch.queue + length es ≤ ch.size
    → channel_of id (publish_all es b).subs
      ≡ some (record ch { queue = ch.queue ++ stamp_from b.next_id es })
unfolding publish_all stamp_from offer
delivered [] b id ch h c room =
    c ∙ ap (λ q. some (record ch { queue = q })) (sym (append-nil ch.queue))
delivered ((now, e) ∷ es) b id ch h c room =
    let f = publish-fields now e b (omega arith) in
    let e' = stamp (suc b.next_id) now e in
    let ch' : Channel = record ch { queue = ch.queue ++ e' ∷ [] } in
    let taken : channel_of id (publish now e b).0.subs ≡ some ch' =
      ap (channel_of id) f.2
      ∙ channel_of-fan_out e' id b.subs
      ∙ ap (Option.map (offer e')) c
      ∙ rw (lt→ltb (length ch.queue) ch.size (omega arith)) in
    delivered es (publish now e b).0 id ch' (omega (arith, f.0)) taken
      (omega (arith, length-append ch.queue (e' ∷ [])))
    ∙ ap (λ k. some (record ch { queue = (ch.queue ++ e' ∷ []) ++ stamp_from k es })) f.0
    ∙ ap (λ q. some (record ch { queue = q }))
        (append_assoc ch.queue (e' ∷ []) (stamp_from (suc b.next_id) es))

-- A new subscriber that reads nothing while at most 256 further events are published has in its
-- channel the replay from its cursor and then all of those events, in order.
pub subscribe_lossless :
    (cursor : ℕ) (es : List (ℕ × Event)) (b : Hub)
    → b.next_id + length es < 2 ^ 64
    → length es ≤ subscriber_buffer
    → let (b', id) = subscribe cursor b in
      channel_of id (publish_all es b').subs
      ≡ some (record {
        queue = since cursor b ++ stamp_from b.next_id es;
        size = length (since cursor b) + subscriber_buffer;
      })
unfolding subscribe channel_of
subscribe_lossless cursor es b h room =
    let (b', id) = subscribe cursor b in
    delivered es b' id _ h (rw ((==_iff id id).1 refl)) (omega arith)
