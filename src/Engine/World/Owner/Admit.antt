-- ===== src/Engine/World/Owner/Admit.antt =====
-- internal/engine: every call that is let in keeps the order of the goroutines.
use aicrme.Prelude.{ℕ, suc, ◌+◌, ◌^◌, ◌<◌, ◌≡◌, String, true, false, List, none, arith, eq_iff}
use aicrme.Engine.State.{Engine, Thread, accepted, live, is_current, bump}
use aicrme.Engine.Calls.{start, retry, decide, discard}
use aicrme.Engine.Teardown.{stop, reset, reset_blocked, reset_refusal, resetting_run}
use aicrme.Engine.World.Owner.{owned_by, live_count, IsPlaced, Settles}

-- A call that makes a run live takes a new epoch and is its one owner.
pub record Launches (e e' : Engine) (t : Thread) : Type 0 where
  pub next_epoch : e'.epoch ≡ suc e.epoch
  pub owner_of : owned_by e'.epoch t ≡ live_count e'.current
  pub placed : IsPlaced e'.epoch e'.current t

-- Another call stays in the epoch.
pub record Joins (e e' : Engine) (t : Thread) : Type 0 where
  pub same_epoch : e'.epoch ≡ e.epoch
  pub settles : Settles e.current e'.current
  pub count_kept : owned_by e.epoch t + live_count e.current ≡ live_count e'.current
  pub placed : IsPlaced e.epoch e'.current t

module _ (now : ℕ) (id : String) (e e' : Engine) (t : Thread) where
  pub start-Launches : suc e.epoch < 2 ^ 64 → start now id e ≡ accepted e' t → Launches e e' t
  unfolding start
  start-Launches b h = ground (arith, eq_iff id id)

  pub retry-Launches : suc e.epoch < 2 ^ 64 → retry now id e ≡ accepted e' t → Launches e e' t
  unfolding retry
  retry-Launches b h = ground arith

  reset_found :
      reset_blocked id e e.current ≡ none
      → (is_current id e.current ≡ true) × (live e.current ≡ false)
  unfolding reset_blocked
  reset_found h = ground arith

  reset_unblocked :
      reset_refusal id e ≡ none → (is_current id e.current ≡ true) × (live e.current ≡ false)
  unfolding reset_refusal
  reset_unblocked h = ground (arith, reset_found)

  reset_launched :
      reset now id e ≡ accepted e' t
      → (reset_refusal id e ≡ none)
        × (e'.current ≡ resetting_run now e.current)
        × (e'.epoch ≡ bump e.epoch)
        × (t ≡ Thread.reset_saving (bump e.epoch) id)
  unfolding reset
  reset_launched h = ground arith

  resetting_found :
      is_current id e.current ≡ true
      → (live (resetting_run now e.current) ≡ true)
        × (is_current id (resetting_run now e.current) ≡ true)
  unfolding resetting_run
  resetting_found h = ground arith

  pub reset-Launches : suc e.epoch < 2 ^ 64 → reset now id e ≡ accepted e' t → Launches e e' t
  reset-Launches b h =
      let (none_blocked, cur, ep, at) = reset_launched h in
      let (found, idle) = reset_unblocked none_blocked in ground (arith, resetting_found found)

  pub decide-Joins :
      (ds : List (String × String)) → decide now id ds e ≡ accepted e' t → Joins e e' t
  unfolding decide
  decide-Joins ds h = ground arith

  pub discard-Joins : discard id e ≡ accepted e' t → Joins e e' t
  unfolding discard
  discard-Joins h = ground arith

  pub stop-Joins : stop id e ≡ accepted e' t → Joins e e' t
  unfolding stop
  stop-Joins h = ground arith
