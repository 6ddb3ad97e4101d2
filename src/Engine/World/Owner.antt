-- ===== src/Engine/World/Owner.antt =====
-- internal/engine: which goroutine owns the run, and what each goroutine may rely on between two of
-- its sections.
pub mod Frame
pub mod Drive
pub mod Serve
pub mod Admit
pub mod Advance
pub mod Single
pub mod Reach
use aicrme.Prelude.{
  ℕ, ◌+◌, ◌≤◌, ◌≡◌, String, Bool, true, false, List, [], ◌∷◌, Option, none, some, ◌==◌,
  if◌then◌else◌, All,
}
use aicrme.Engine.Run.{Run, is_live}
use aicrme.Engine.State.{Engine, Thread, After, Moved, is_current, live}
use aicrme.Engine.World.{as_list}

-- The epoch in whose name a goroutine acts.
abbrev pub epoch_of : Thread → ℕ
epoch_of (Thread.start_saving epoch id previous) = epoch
epoch_of (Thread.retry_saving epoch id prev_err prev_pending) = epoch
epoch_of (Thread.decide_saving epoch id prev) = epoch
epoch_of (Thread.discard_deleting epoch previous prev_pending) = epoch
epoch_of (Thread.stop_waiting epoch id) = epoch
epoch_of (Thread.stop_recording epoch id) = epoch
epoch_of Thread.stop_ending = 0
epoch_of (Thread.reset_saving epoch id) = epoch
epoch_of (Thread.executing epoch) = epoch
epoch_of (Thread.checking epoch i s) = epoch
epoch_of (Thread.await_saving epoch i s channel id) = epoch
epoch_of (Thread.awaiting epoch i s channel) = epoch
epoch_of (Thread.step_beginning epoch i s) = epoch
epoch_of (Thread.step_saving epoch i s scratch) = epoch
epoch_of (Thread.stepping epoch i s scratch) = epoch
epoch_of (Thread.step_failing epoch i s scratch unconfirmed confirmed msg) = epoch
epoch_of (Thread.fail_clearing epoch i s msg) = epoch
epoch_of (Thread.merging epoch i s scratch) = epoch
epoch_of (Thread.merge_clearing epoch i s id) = epoch
epoch_of (Thread.merge_saving epoch i s id) = epoch
epoch_of (Thread.finishing epoch state msg after) = epoch
epoch_of (Thread.finish_clearing epoch id state after) = epoch
epoch_of (Thread.finish_saving epoch id state after) = epoch
epoch_of (Thread.reset_reading epoch id) = epoch
epoch_of (Thread.reset_stopping epoch id run) = epoch
epoch_of (Thread.reset_removing epoch id run) = epoch
epoch_of (Thread.reset_recording epoch id items incomplete abort) = epoch
epoch_of (Thread.reset_concluding epoch id incomplete) = epoch
epoch_of (Thread.reset_deleting epoch id) = epoch
epoch_of (Thread.reset_ending epoch) = epoch
epoch_of (Thread.panicked epoch) = epoch

-- `finish` by the goroutine that drives the run, and not by `Stop` or the reconciliation.
abbrev pub finishes_own : After → Bool
finishes_own After.goroutine_ends = true
finishes_own (After.record_deleted id) = true
finishes_own After.stop_returns = false
finishes_own After.reconcile_goes_on = false

-- Does a goroutine own the run of its epoch: has it made the run live, or does it drive it, and has
-- it not yet brought it to an end?
abbrev pub owns : Thread → Bool
owns (Thread.start_saving epoch id previous) = true
owns (Thread.retry_saving epoch id prev_err prev_pending) = true
owns (Thread.reset_saving epoch id) = true
owns (Thread.executing epoch) = true
owns (Thread.checking epoch i s) = true
owns (Thread.await_saving epoch i s channel id) = true
owns (Thread.awaiting epoch i s channel) = true
owns (Thread.step_beginning epoch i s) = true
owns (Thread.step_saving epoch i s scratch) = true
owns (Thread.stepping epoch i s scratch) = true
owns (Thread.step_failing epoch i s scratch unconfirmed confirmed msg) = true
owns (Thread.fail_clearing epoch i s msg) = true
owns (Thread.merging epoch i s scratch) = true
owns (Thread.merge_clearing epoch i s id) = true
owns (Thread.merge_saving epoch i s id) = true
owns (Thread.finishing epoch state msg after) = finishes_own after
owns (Thread.reset_reading epoch id) = true
owns (Thread.reset_stopping epoch id run) = true
owns (Thread.reset_removing epoch id run) = true
owns (Thread.reset_recording epoch id items incomplete abort) = true
owns (Thread.reset_concluding epoch id incomplete) = true
owns (Thread.decide_saving epoch id prev) = false
owns (Thread.discard_deleting epoch previous prev_pending) = false
owns (Thread.stop_waiting epoch id) = false
owns (Thread.stop_recording epoch id) = false
owns Thread.stop_ending = false
owns (Thread.finish_clearing epoch id state after) = false
owns (Thread.finish_saving epoch id state after) = false
owns (Thread.reset_deleting epoch id) = false
owns (Thread.reset_ending epoch) = false
owns (Thread.panicked epoch) = false

-- How many of the goroutines own the run of an epoch.
abbrev pub owned_by : ℕ → Thread → ℕ
owned_by epoch t = if owns t then (if epoch_of t == epoch then 1 else 0) else 0

abbrev pub owners : ℕ → List Thread → ℕ
owners epoch [] = 0
owners epoch (t ∷ ts) = owned_by epoch t + owners epoch ts

abbrev pub live_count : Option Run → ℕ
live_count r = if live r then 1 else 0

-- `Stop`, which works on a run that is not live.
abbrev pub stopping : Thread → Bool
stopping (Thread.stop_waiting epoch id) = true
stopping (Thread.stop_recording epoch id) = true
stopping (Thread.finishing epoch state msg after) = elim after [
  | After.stop_returns ↦ true
  | After.reconcile_goes_on ↦ true
  | _ ↦ false
]
stopping _ = false

-- The id by which some goroutines look for their run again.
abbrev pub looks_for : Thread → Option String
looks_for (Thread.start_saving epoch id previous) = some id
looks_for (Thread.retry_saving epoch id prev_err prev_pending) = some id
looks_for (Thread.reset_saving epoch id) = some id
looks_for (Thread.reset_reading epoch id) = some id
looks_for (Thread.reset_stopping epoch id run) = some id
looks_for (Thread.reset_removing epoch id run) = some id
looks_for (Thread.reset_recording epoch id items incomplete abort) = some id
looks_for (Thread.reset_concluding epoch id incomplete) = some id
looks_for _ = none

abbrev pub Finds : Option String → Option Run → Type 0
Finds none cur = Unit {0}
Finds (some id) cur = is_current id cur ≡ true

-- What a goroutine carries along: the run that a failed save puts back, and the end that it brings.
abbrev pub Carries : Thread → Type 0
Carries (Thread.start_saving epoch id previous) = live previous ≡ false
Carries (Thread.discard_deleting epoch previous prev_pending) = is_live previous.state ≡ false
Carries (Thread.decide_saving epoch id prev) = is_live prev.state ≡ true
Carries (Thread.finishing epoch state msg after) = is_live state ≡ false
Carries (Thread.panicked epoch) = ⊥
Carries _ = Unit {0}

pub record IsPlaced (epoch : ℕ) (cur : Option Run) (t : Thread) : Type 0 where
  pub past : epoch_of t ≤ epoch
  pub carried : Carries t
  pub found : owns t ≡ true → epoch_of t ≡ epoch → live cur ≡ true → Finds (looks_for t) cur
  pub idle : stopping t ≡ true → epoch_of t ≡ epoch → live cur ≡ false

-- A change within an epoch brings no run to life and changes no live run's id.
pub record Settles (cur cur' : Option Run) : Type 0 where
  pub from_live : live cur' ≡ true → live cur ≡ true
  pub same_id :
      (id : String) → live cur' ≡ true → is_current id cur ≡ true → is_current id cur' ≡ true

-- One step of the goroutine `t`: it stays in the epoch, keeps the count of owners equal to one for a
-- live run and none for another, and is in its place again.
pub record IsSound (e : Engine) (t : Thread) (m : Moved) : Type 0 where
  pub epoch_kept : m.engine.epoch ≡ e.epoch
  pub settles : Settles e.current m.engine.current
  pub count_kept :
      owners e.epoch (as_list m.next) + live_count e.current
      ≡ owned_by e.epoch t + live_count m.engine.current
  pub next_placed : All (IsPlaced e.epoch m.engine.current) (as_list m.next)

-- A step that is sound wherever its goroutine is in its place and does not own a run that is not live.
abbrev pub KeepsOrder : Engine → Thread → Moved → Type 0
KeepsOrder e t m =
    IsPlaced e.epoch e.current t → owned_by e.epoch t ≤ live_count e.current → IsSound e t m
