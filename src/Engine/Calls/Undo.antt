-- ===== src/Engine/Calls/Undo.antt =====
-- internal/engine/engine.go: what a failed save takes back.
use aicrme.Prelude.{ℕ, String, eq_iff, Bool, false, List, Option, some, arith, ◌≡◌}
use aicrme.Engine.Run.{Run}
use aicrme.Engine.State.{Engine, Thread, accepted}
use aicrme.Engine.Calls.{
  start, start_saved, retry, retry_saved, decide, decide_saved, discard, discard_deleted,
}

-- An accepted `Start` whose save fails, with nothing else in between, leaves the run that was there
-- before.
pub start-undone :
    (now : ℕ) (id : String) (e e' : Engine) (epoch : ℕ) (id' : String) (previous : Option Run)
    → start now id e ≡ accepted e' (Thread.start_saving epoch id' previous)
    → (start_saved false epoch id' previous e').engine.current ≡ e.current
unfolding start start_saved
start-undone now id e e' epoch id' previous h = ground (arith, eq_iff id id)

-- An accepted `Retry` whose save fails, with nothing else in between, leaves a run that differs from the one before at most in the
-- time of its update: failed as it was, with the same error, and the same mark of a recovered run.
pub retry-undone :
    (now later : ℕ) (id : String) (e e' : Engine) (r : Run) (epoch : ℕ) (id' prev_err : String)
    (prev_pending : Bool)
    → e.current ≡ some r
    → retry now id e ≡ accepted e' (Thread.retry_saving epoch id' prev_err prev_pending)
    → let e'' = (retry_saved false later epoch id' prev_err prev_pending e').engine in
      (e''.current ≡ some (record r { updated_at = later }))
      × (e''.recovered_pending ≡ e.recovered_pending)
unfolding retry retry_saved
retry-undone now later id e e' r epoch id' prev_err prev_pending h k =
    ground (arith, eq_iff r.id id)

-- An accepted `Decide` whose save fails, with nothing else in between, leaves the engine as it was.
pub decide-undone :
    (now : ℕ) (id : String) (ds : List (String × String)) (e e' : Engine) (epoch : ℕ) (id' : String)
    (prev : Run)
    → decide now id ds e ≡ accepted e' (Thread.decide_saving epoch id' prev)
    → (decide_saved false epoch id' prev e').engine ≡ e
unfolding decide decide_saved
decide-undone now id ds e e' epoch id' prev h = ground arith

-- An accepted `Discard` whose deletion fails, with nothing else in between, leaves the engine as it was.
pub discard-undone :
    (id : String) (e e' : Engine) (epoch : ℕ) (previous : Run) (prev_pending : Bool)
    → discard id e ≡ accepted e' (Thread.discard_deleting epoch previous prev_pending)
    → (discard_deleted false epoch previous prev_pending e').engine ≡ e
unfolding discard discard_deleted
discard-undone id e e' epoch previous prev_pending h = ground arith
