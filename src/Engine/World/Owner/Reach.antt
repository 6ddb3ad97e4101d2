-- ===== src/Engine/World/Owner/Reach.antt =====
-- internal/engine: what holds after any schedule of calls and goroutines.
use aicrme.Prelude.{
  ℕ, suc, ◌+◌, ◌^◌, ◌≤◌, ◌<◌, ◌≡◌, refl, if◌then◌else◌, Bool, true, false, List, [], ◌∷◌, Option,
  arith, All, length, inl, inr,
}
use aicrme.Engine.Run.{Run}
use aicrme.Engine.Codec.{Codec}
use aicrme.Engine.State.{Engine, Thread, live, accepted}
use aicrme.Engine.World.{
  Call, start_run, retry_run, decide_run, discard_run, stop_run, reset_run, answer, World, Action,
  calls, moves, cancels, admit, cancel_run, step, run,
}
use aicrme.Engine.World.Owner.{owners, IsPlaced, Carries}
use aicrme.Engine.World.Owner.Single.{IsOrderly, step-IsOrderly, Answer-cases, move_at-Moves}
use aicrme.Engine.World.Owner.Admit.{
  start-Launches, retry-Launches, reset-Launches, decide-Joins, discard-Joins, stop-Joins,
}

admitted_epoch :
    (now : ℕ) (c : Call) (e e' : Engine) (t : Thread)
    → suc e.epoch < 2 ^ 64
    → answer now c e ≡ accepted e' t
    → e'.epoch ≤ suc e.epoch
unfolding answer
admitted_epoch now (start_run id) e e' t b h = omega (arith, start-Launches now id e e' t b h)
admitted_epoch now (retry_run id) e e' t b h = omega (arith, retry-Launches now id e e' t b h)
admitted_epoch now (decide_run id ds) e e' t b h = omega (arith, decide-Joins now id e e' t ds h)
admitted_epoch now (discard_run id) e e' t b h = omega (arith, discard-Joins now id e e' t h)
admitted_epoch now (stop_run id) e e' t b h = omega (arith, stop-Joins now id e e' t h)
admitted_epoch now (reset_run id) e e' t b h = omega (arith, reset-Launches now id e e' t b h)

step_epoch :
    (codec : Codec) (w : World) (a : Action)
    → suc w.engine.epoch < 2 ^ 64
    → IsOrderly w
    → (step codec w a).engine.epoch ≤ suc w.engine.epoch
unfolding step cancel_run admit
step_epoch codec w (calls now c) b v = elim (Answer-cases (answer now c w.engine)) [
  | inl (x, q) ↦ rw q (omega arith)
  | inr (e', t, q) ↦ rw q (admitted_epoch now c w.engine e' t b q)
]
step_epoch codec w (moves now n o) b v = omega (
  arith,
  (move_at-Moves codec now o n w.engine w.threads (omega (arith, v.counted)) v.placed).epoch_kept,
)
step_epoch codec w cancels b v = omega arith

run-IsOrderly :
    (codec : Codec) (w : World) (actions : List Action)
    → w.engine.epoch + length actions < 2 ^ 64
    → IsOrderly w
    → IsOrderly (run codec w actions)
unfolding run
run-IsOrderly codec w [] b v = v
run-IsOrderly codec w (a ∷ rest) b v =
    run-IsOrderly codec (step codec w a) rest (omega (arith, step_epoch codec w a (omega arith) v))
      (step-IsOrderly codec w a (omega arith) v)

-- An engine at rest: no goroutine, as after a start or a recovery.
abbrev pub at_rest : Engine → World
at_rest e = record { engine = e; threads = [] }

at_rest-IsOrderly : (e : Engine) → live e.current ≡ false → IsOrderly (at_rest e)
at_rest-IsOrderly e h = record { counted = rw h refl; placed = tt }

-- From an engine whose run is not live, over any schedule of calls, goroutine steps, cancellations and
-- failures of the store or the cluster that is shorter than the room left in the epoch counter: a run
-- that is live has exactly one goroutine that owns it, and one that is not has none.
pub single_owner :
    (codec : Codec) (e : Engine) (actions : List Action)
    → live e.current ≡ false
    → e.epoch + length actions < 2 ^ 64
    → let w = run codec (at_rest e) actions in
      owners w.engine.epoch w.threads ≡ (if live w.engine.current then 1 else 0)
single_owner codec e actions h b =
    (run-IsOrderly codec (at_rest e) actions b (at_rest-IsOrderly e h)).counted

abbrev pub is_panicked : Thread → Bool
is_panicked (Thread.panicked epoch) = true
is_panicked _ = false

not_panicked : (t : Thread) → Carries t → is_panicked t ≡ false
not_panicked (Thread.panicked epoch) c = absurd c
not_panicked _ c = refl

none_panicked :
    (epoch : ℕ) (cur : Option Run) (ts : List Thread)
    → All (IsPlaced epoch cur) ts
    → All (λ t. is_panicked t ≡ false) ts
none_panicked epoch cur [] p = tt
none_panicked epoch cur (t ∷ ts) p = (not_panicked t p.0.carried, none_panicked epoch cur ts p.1)

-- Over the same schedules no goroutine ever reads through a nil run or past the end of the steps.
pub never_panics :
    (codec : Codec) (e : Engine) (actions : List Action)
    → live e.current ≡ false
    → e.epoch + length actions < 2 ^ 64
    → All (λ t. is_panicked t ≡ false) (run codec (at_rest e) actions).threads
never_panics codec e actions h b =
    let w = run codec (at_rest e) actions in
    none_panicked w.engine.epoch w.engine.current w.threads
      (run-IsOrderly codec (at_rest e) actions b (at_rest-IsOrderly e h)).placed
