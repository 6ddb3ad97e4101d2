-- ===== src/Bus/Hub.antt =====
-- internal/bus/bus.go: the hub with its circular replay buffer and its subscribers' channels. A call
-- runs under the hub's mutex from its first line to its last, so it is one function of the state.
pub mod Ring
pub mod History
pub mod Replay
use aicrme.Prelude.{
  ℕ, zero, suc, ◌+◌, ◌%◌, ◌^◌, List, [], ◌∷◌, ◌++◌, String, Option, none, some, map, length, get_or,
  set, replicate, ltb, ◌==◌, if◌then◌else◌,
}
use aicrme.Bus.Event.{Event, Level, zero_event}

abbrev pub subscriber_buffer : ℕ
subscriber_buffer = 256

-- A `chan Event`: what is queued, oldest first, and the size that it was made with.
pub record Channel : Type 0 where
  pub queue : List Event
  pub size : ℕ

-- `next_id` is a uint64. Subscriber numbers are `int` keys counted up one subscription at a time,
-- and are left unbounded. `subs` is Go's map from those numbers to the open channels.
pub record Hub : Type 0 where
  pub next_id : ℕ
  pub ring : List Event
  pub head : ℕ
  pub count : ℕ
  pub capacity : ℕ
  pub subs : List (ℕ × Channel)
  pub next_sub : ℕ
  pub epoch : String

unfoldable pub new : ℕ → String → Hub
new requested epoch = record {
  next_id = 0;
  ring = replicate capacity zero_event;
  head = 0;
  count = 0;
  capacity = capacity;
  subs = [];
  next_sub = 0;
  epoch = epoch;
}
  where
    capacity : ℕ
    capacity = if ltb requested 1 then 1 else requested

-- `e.Level == ""`
abbrev pub or_info : Level → Level
or_info Level.unset = Level.info
or_info Level.info = Level.info
or_info Level.warn = Level.warn
or_info Level.err = Level.err

-- The event as `Publish` stamps it at the time `now`.
abbrev pub stamp : ℕ → ℕ → Event → Event
stamp id now e = record e { id = id; at = if e.at == 0 then now else e.at; level = or_info e.level }

unfoldable pub retain : Event → Hub → Hub
retain e b =
    if ltb b.count b.capacity
    then record b { ring = set b.ring ((b.head + b.count) % b.capacity) e; count = b.count + 1 }
    else record b { ring = set b.ring b.head e; head = (b.head + 1) % b.capacity }

-- The non-blocking send: a full channel drops the event.
unfoldable pub offer : Event → Channel → Channel
offer e ch = if ltb (length ch.queue) ch.size then record ch { queue = ch.queue ++ e ∷ [] } else ch

unfoldable pub fan_out : Event → List (ℕ × Channel) → List (ℕ × Channel)
unfolding offer
fan_out e = map (λ p. (p.0, offer e p.1))

unfoldable pub publish : ℕ → Event → Hub → Hub × Event
unfolding retain fan_out
publish now e b =
    let id = (b.next_id + 1) % 2 ^ 64 in
    let e' = stamp id now e in
    let b' = retain e' (record b { next_id = id }) in (record b' { subs = fan_out e' b'.subs }, e')

-- The loop of `since`: `left` rounds from index `i`.
unfoldable pub since_loop : Hub → ℕ → ℕ → ℕ → List Event
since_loop b cursor i zero = []
since_loop b cursor i (suc left) =
    let e = get_or b.ring ((b.head + i) % b.capacity) zero_event in
    let rest = since_loop b cursor (suc i) left in if ltb cursor e.id then e ∷ rest else rest

unfoldable pub since : ℕ → Hub → List Event
unfolding since_loop
since cursor b = since_loop b (if ltb b.next_id cursor then 0 else cursor) 0 b.count

unfoldable pub subscribe : ℕ → Hub → Hub × ℕ
unfolding since
subscribe cursor b =
    let backlog = since cursor b in
    let ch : Channel = record { queue = backlog; size = length backlog + subscriber_buffer } in
    (record b { subs = (b.next_sub, ch) ∷ b.subs; next_sub = b.next_sub + 1 }, b.next_sub)

unfoldable pub channel_of : ℕ → List (ℕ × Channel) → Option Channel
channel_of id [] = none
channel_of id ((j, ch) ∷ subs) = if j == id then some ch else channel_of id subs

unfoldable pub remove : ℕ → List (ℕ × Channel) → List (ℕ × Channel)
remove id [] = []
remove id ((j, ch) ∷ subs) = let rest = remove id subs in if j == id then rest else (j, ch) ∷ rest

-- The function that `Subscribe` returns: `delete(b.subs, id)`. A second call finds nothing to
-- delete, as `sync.Once` has it.
unfoldable pub unsubscribe : ℕ → Hub → Hub
unfolding remove
unsubscribe id b = record b { subs = remove id b.subs }
