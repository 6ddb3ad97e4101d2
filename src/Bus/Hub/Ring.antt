-- ===== src/Bus/Hub/Ring.antt =====
-- The circular buffer of internal/bus/bus.go against the plain list of what it retains.
use aicrme.Prelude.{
  ℕ, suc, ◌+◌, ◌-◌, ◌%◌, ◌≤◌, ◌<◌, ◌≡◌, List, [], ◌∷◌, ◌++◌, arith, length, set, drop, length-set,
  length-replicate,
}
use native.Mathlib.Nat.{mod-lt}
use aicrme.Prelude.Ring.{window, length-window, window-grow, window-slide, push_bounded}
use aicrme.Bus.Event.{Event, zero_event}
use aicrme.Bus.Hub.{Hub, Channel, new, retain}

-- The retained events, oldest first.
unfoldable pub view : Hub → List Event
unfolding window
view b = window zero_event b.ring b.capacity b.head 0 b.count

pub record IsRing (b : Hub) : Type 0 where
  pub sized : length b.ring ≡ b.capacity
  pub positive : 0 < b.capacity
  pub head_in : b.head < b.capacity
  pub count_in : b.count ≤ b.capacity
  pub unwrapped : b.count < b.capacity → b.head ≡ 0

pub new-IsRing : (n : ℕ) (epoch : _) → IsRing (new n epoch)
unfolding new
new-IsRing n epoch = ground (arith, length-replicate {0} n zero_event)

pub retain-IsRing : (e : Event) (b : Hub) → IsRing b → IsRing (retain e b)
unfolding retain
retain-IsRing e b v = ground (
  arith,
  length-set b.ring ((b.head + b.count) % b.capacity) e,
  length-set b.ring b.head e,
  next_in,
)
  where
    next_in : (b.head + 1) % b.capacity < b.capacity
    next_in = mod-lt (b.head + 1) v.positive

pub length-view : (b : Hub) → length (view b) ≡ b.count
unfolding view
length-view b = length-window zero_event b.ring b.capacity b.head 0 b.count

-- Below the capacity the write goes behind the last event.
view-grow :
    (e : Event) (b : Hub)
    → IsRing b
    → b.count < b.capacity
    → view (record b { ring = set b.ring ((b.head + b.count) % b.capacity) e; count = b.count + 1 })
      ≡ view b ++ e ∷ []
unfolding view
view-grow e b v p =
    window-grow zero_event b.ring b.capacity b.head b.count e v.sized (v.unwrapped p) p

-- At the capacity the write replaces the oldest event, and the next one becomes the oldest.
view-slide :
    (e : Event) (b : Hub) (k : ℕ)
    → IsRing b
    → b.count ≡ suc k
    → b.capacity ≡ suc k
    → view (record b { ring = set b.ring b.head e; head = (b.head + 1) % b.capacity })
      ≡ drop 1 (view b) ++ e ∷ []
unfolding view
view-slide e b k v p q =
    rw p (window-slide zero_event b.ring b.capacity b.head k e v.sized v.head_in q)

-- The circular buffer refines the bounded list.
pub view-retain :
    (e : Event) (b : Hub) → IsRing b → view (retain e b) ≡ push_bounded b.capacity (view b) e
unfolding retain
view-retain e b v =
    ground (arith, length-view b, view-grow e b v, view-slide e b (b.capacity - 1) v)

-- The buffer does not depend on the numbering and the subscribers.
pub IsRing-frame :
    (b : Hub) (id n : ℕ) (subs : List (ℕ × Channel))
    → IsRing b
    → IsRing (record b { next_id = id; subs = subs; next_sub = n })
IsRing-frame b id n subs v = ground arith

pub retain-fields :
    (e : Event) (b : Hub)
    → ((retain e b).next_id ≡ b.next_id)
      × ((retain e b).capacity ≡ b.capacity)
      × ((retain e b).subs ≡ b.subs)
      × ((retain e b).next_sub ≡ b.next_sub)
unfolding retain
retain-fields e b = ground arith
