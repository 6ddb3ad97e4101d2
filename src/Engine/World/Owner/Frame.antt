-- ===== src/Engine/World/Owner/Frame.antt =====
-- internal/engine: a goroutine keeps its place while another one moves.
use aicrme.Prelude.{
  ℕ, ◌≤◌, ◌<◌, ◌≡◌, refl, String, Bool, true, false, List, [], ◌∷◌, Option, none, some, arith, All,
}
use aicrme.Engine.Run.{Run}
use aicrme.Engine.State.{Thread, live}
use aicrme.Engine.World.Owner.{epoch_of, owned_by, owners, looks_for, Finds, IsPlaced, Settles}

Finds-Settles :
    (o : Option String) (cur cur' : Option Run)
    → Settles cur cur'
    → live cur' ≡ true
    → Finds o cur
    → Finds o cur'
Finds-Settles none cur cur' s l f = tt
Finds-Settles (some id) cur cur' s l f = s.same_id id l f

not_live : (b c : Bool) → (b ≡ true → c ≡ true) → c ≡ false → b ≡ false
not_live b c h k = ground arith

pub IsPlaced-Settles :
    (epoch : ℕ) (cur cur' : Option Run) (t : Thread)
    → Settles cur cur'
    → IsPlaced epoch cur t
    → IsPlaced epoch cur' t
IsPlaced-Settles epoch cur cur' t s p = record {
  past = p.past;
  carried = p.carried;
  found = λ o q l. Finds-Settles (looks_for t) cur cur' s l (p.found o q (s.from_live l));
  idle = λ o q. not_live (live cur') (live cur) s.from_live (p.idle o q);
}

-- After the epoch has gone up nobody acts in the name of the new one.
pub IsPlaced-bump :
    (epoch epoch' : ℕ) (cur cur' : Option Run) (t : Thread)
    → epoch < epoch'
    → IsPlaced epoch cur t
    → IsPlaced epoch' cur' t
IsPlaced-bump epoch epoch' cur cur' t h p = record {
  past = omega (arith, p.past);
  carried = p.carried;
  found = λ o q l. absurd (omega (arith, p.past));
  idle = λ o q. absurd (omega (arith, p.past));
}

pub All-Settles :
    (epoch : ℕ) (cur cur' : Option Run) (ts : List Thread)
    → Settles cur cur'
    → All (IsPlaced epoch cur) ts
    → All (IsPlaced epoch cur') ts
All-Settles epoch cur cur' [] s p = tt
All-Settles epoch cur cur' (t ∷ ts) s p =
    (IsPlaced-Settles epoch cur cur' t s p.0, All-Settles epoch cur cur' ts s p.1)

pub All-bump :
    (epoch epoch' : ℕ) (cur cur' : Option Run) (ts : List Thread)
    → epoch < epoch'
    → All (IsPlaced epoch cur) ts
    → All (IsPlaced epoch' cur') ts
All-bump epoch epoch' cur cur' [] h p = tt
All-bump epoch epoch' cur cur' (t ∷ ts) h p =
    (IsPlaced-bump epoch epoch' cur cur' t h p.0, All-bump epoch epoch' cur cur' ts h p.1)

owned_by-bump :
    (epoch epoch' : ℕ) (t : Thread) → epoch < epoch' → epoch_of t ≤ epoch → owned_by epoch' t ≡ 0
owned_by-bump epoch epoch' t h p = ground arith

pub owners-bump :
    (epoch epoch' : ℕ) (cur : Option Run) (ts : List Thread)
    → epoch < epoch'
    → All (IsPlaced epoch cur) ts
    → owners epoch' ts ≡ 0
owners-bump epoch epoch' cur [] h p = refl
owners-bump epoch epoch' cur (t ∷ ts) h p =
    omega (arith, owned_by-bump epoch epoch' t h p.0.past, owners-bump epoch epoch' cur ts h p.1)
