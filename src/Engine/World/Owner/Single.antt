-- ===== src/Engine/World/Owner/Single.antt =====
-- internal/engine: in every reachable state a live run has exactly one goroutine, another none.
use aicrme.Prelude.{
  ℕ, zero, suc, ◌+◌, ◌^◌, ◌≤◌, ◌<◌, ◌≡◌, refl, sym, subst, ◌⊎◌, inl, inr, ◌++◌, List, [], ◌∷◌,
  Option, arith, All,
}
use aicrme.Engine.Run.{Run}
use aicrme.Engine.Codec.{Codec}
use aicrme.Engine.Refusal.{Refusal}
use aicrme.Engine.State.{Engine, Thread, Answer, refused, accepted}
use aicrme.Engine.World.{
  Outcome, advance, Call, start_run, retry_run, decide_run, discard_run, stop_run, reset_run,
  answer, World, Action, calls, moves, cancels, admit, cancel_run, as_list, move_at, step,
}
use aicrme.Engine.World.Owner.{owners, live_count, IsPlaced, Settles}
use aicrme.Engine.World.Owner.Frame.{All-Settles, All-bump, owners-bump, IsPlaced-Settles}
use aicrme.Engine.World.Owner.Advance.{advance-KeepsOrder}
use aicrme.Engine.World.Owner.Admit.{
  Launches, Joins, start-Launches, retry-Launches, reset-Launches, decide-Joins, discard-Joins,
  stop-Joins,
}

-- The goroutines beside a run: each in its place, and one owner for a live run, none for another.
pub record IsOrdered (epoch : ℕ) (cur : Option Run) (ts : List Thread) : Type 0 where
  pub counted : owners epoch ts ≡ live_count cur
  pub placed : All (IsPlaced epoch cur) ts

abbrev pub IsOrderly : World → Type 0
IsOrderly w = IsOrdered w.engine.epoch w.engine.current w.threads

pub record Moves (e : Engine) (ts : List Thread) (e' : Engine) (ts' : List Thread) : Type 0 where
  pub epoch_kept : e'.epoch ≡ e.epoch
  pub settles : Settles e.current e'.current
  pub count_kept :
      owners e.epoch ts' + live_count e.current ≡ owners e.epoch ts + live_count e'.current
  pub placed : All (IsPlaced e.epoch e'.current) ts'

Settles-refl : (cur : Option Run) → Settles cur cur
Settles-refl cur = record { from_live = λ l. l; same_id = λ id l f. f }

All-append :
    (epoch : ℕ) (cur : Option Run) (xs ys : List Thread)
    → All (IsPlaced epoch cur) xs
    → All (IsPlaced epoch cur) ys
    → All (IsPlaced epoch cur) (xs ++ ys)
All-append epoch cur [] ys hx hy = hy
All-append epoch cur (x ∷ xs) ys hx hy = (hx.0, All-append epoch cur xs ys hx.1 hy)

owners-append :
    (epoch : ℕ) (xs ys : List Thread) → owners epoch (xs ++ ys) ≡ owners epoch xs + owners epoch ys
owners-append epoch [] ys = omega arith
owners-append epoch (x ∷ xs) ys = omega (arith, owners-append epoch xs ys)

pub move_at-Moves :
    (codec : Codec) (now : ℕ) (o : Outcome) (n : ℕ) (e : Engine) (ts : List Thread)
    → owners e.epoch ts ≤ live_count e.current
    → All (IsPlaced e.epoch e.current) ts
    → Moves e ts (move_at codec now o n e ts).0 (move_at codec now o n e ts).1
unfolding move_at
move_at-Moves codec now o n e [] c p = record {
  epoch_kept = refl;
  settles = Settles-refl e.current;
  count_kept = refl;
  placed = tt;
}
move_at-Moves codec now o zero e (t ∷ ts) c p =
    let m = advance codec now o t e in
    let s = advance-KeepsOrder codec now o t e p.0 (omega arith) in
    record {
      epoch_kept = s.epoch_kept;
      settles = s.settles;
      count_kept = omega (arith, s.count_kept, owners-append e.epoch (as_list m.next) ts);
      placed =
          All-append e.epoch m.engine.current (as_list m.next) ts s.next_placed
            (All-Settles e.epoch e.current m.engine.current ts s.settles p.1);
    }
move_at-Moves codec now o (suc n) e (t ∷ ts) c p =
    let s = move_at-Moves codec now o n e ts (omega arith) p.1 in
    record {
      epoch_kept = s.epoch_kept;
      settles = s.settles;
      count_kept = omega (arith, s.count_kept);
      placed = (
        IsPlaced-Settles e.epoch e.current (move_at codec now o n e ts).0.current t s.settles p.0,
        s.placed,
      );
    }

Launches-IsOrderly :
    (w : World) (e' : Engine) (t : Thread)
    → IsOrderly w
    → Launches w.engine e' t
    → IsOrdered e'.epoch e'.current (t ∷ w.threads)
Launches-IsOrderly w e' t v l = record {
  counted = omega (
    arith,
    l.owner_of,
    owners-bump w.engine.epoch e'.epoch w.engine.current w.threads (omega (arith, l.next_epoch))
        v.placed,
  );
  placed = (
    l.placed,
    All-bump w.engine.epoch e'.epoch w.engine.current e'.current w.threads
        (omega (arith, l.next_epoch)) v.placed,
  );
}

Joins-IsOrderly :
    (w : World) (e' : Engine) (t : Thread)
    → IsOrderly w
    → Joins w.engine e' t
    → IsOrdered e'.epoch e'.current (t ∷ w.threads)
Joins-IsOrderly w e' t v j =
    subst (λ k. IsOrdered k e'.current (t ∷ w.threads)) (sym j.same_epoch)
      (record {
        counted = omega (arith, j.count_kept, v.counted);
        placed = (
          j.placed,
          All-Settles w.engine.epoch w.engine.current e'.current w.threads j.settles v.placed,
        );
      })

pub Answer-cases :
    (a : Answer)
    → ((x : Refusal) × (a ≡ refused x)) ⊎ ((e : Engine) × (t : Thread) × (a ≡ accepted e t))
Answer-cases (refused x) = inl (x, refl)
Answer-cases (accepted e t) = inr (e, t, refl)

admitted :
    (now : ℕ) (c : Call) (w : World) (e' : Engine) (t : Thread)
    → suc w.engine.epoch < 2 ^ 64
    → IsOrderly w
    → answer now c w.engine ≡ accepted e' t
    → IsOrdered e'.epoch e'.current (t ∷ w.threads)
unfolding answer
admitted now (start_run id) w e' t b v h =
    Launches-IsOrderly w e' t v (start-Launches now id w.engine e' t b h)
admitted now (retry_run id) w e' t b v h =
    Launches-IsOrderly w e' t v (retry-Launches now id w.engine e' t b h)
admitted now (decide_run id ds) w e' t b v h =
    Joins-IsOrderly w e' t v (decide-Joins now id w.engine e' t ds h)
admitted now (discard_run id) w e' t b v h =
    Joins-IsOrderly w e' t v (discard-Joins now id w.engine e' t h)
admitted now (stop_run id) w e' t b v h =
    Joins-IsOrderly w e' t v (stop-Joins now id w.engine e' t h)
admitted now (reset_run id) w e' t b v h =
    Launches-IsOrderly w e' t v (reset-Launches now id w.engine e' t b h)

admit-IsOrderly :
    (now : ℕ) (c : Call) (w : World)
    → suc w.engine.epoch < 2 ^ 64
    → IsOrderly w
    → IsOrderly (admit (answer now c w.engine) w)
unfolding admit
admit-IsOrderly now c w b v = elim (Answer-cases (answer now c w.engine)) [
  | inl (x, q) ↦ rw q v
  | inr (e', t, q) ↦ rw q (admitted now c w e' t b v q)
]

moved-IsOrderly :
    (codec : Codec) (now : ℕ) (o : Outcome) (n : ℕ) (w : World)
    → IsOrderly w
    → IsOrdered
        (move_at codec now o n w.engine w.threads).0.epoch
        (move_at codec now o n w.engine w.threads).0.current
        (move_at codec now o n w.engine w.threads).1
moved-IsOrderly codec now o n w v =
    let (e', ts') = move_at codec now o n w.engine w.threads in
    let m = move_at-Moves codec now o n w.engine w.threads (omega (arith, v.counted)) v.placed in
    subst (λ k. IsOrdered k e'.current ts') (sym m.epoch_kept)
      (record { counted = omega (arith, m.count_kept, v.counted); placed = m.placed })

-- One action keeps the order, as long as the epoch can still go up.
pub step-IsOrderly :
    (codec : Codec) (w : World) (a : Action)
    → suc w.engine.epoch < 2 ^ 64
    → IsOrderly w
    → IsOrderly (step codec w a)
unfolding step cancel_run
step-IsOrderly codec w (calls now c) b v = admit-IsOrderly now c w b v
step-IsOrderly codec w (moves now n o) b v = moved-IsOrderly codec now o n w v
step-IsOrderly codec w cancels b v = v
