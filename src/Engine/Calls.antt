-- ===== src/Engine/Calls.antt =====
-- internal/engine/engine.go: `Start`, `Retry`, `Decide`, `Discard`, `Stop` and `CancelAndWait`, each
-- in its sections under the lock.
pub mod Guards
pub mod Answers
pub mod Undo
pub mod Unblock
use aicrme.Prelude.{
  ℕ, String, str_eq, Bool, true, false, not, ◌&&◌, List, [], ◌∷◌, Option, none, some, if◌then◌else◌,
  find, assign_all, has_key, member,
}
use aicrme.Bus.Event.{Kind, Level}
use aicrme.Engine.Run.{
  Run, running, failed, active, done, Phase, unset, zero_run, is_live, is_awaiting, is_failed,
  is_active, has_unconfirmed_cleanup, has_incomplete_teardown,
}
use aicrme.Engine.Refusal.{Refusal}
use aicrme.Engine.State.{
  Engine, Step, Thread, Moved, moved, ended, publishing, Answer, refused, accepted, event, bump,
  alive, contains, is_current, live, close_done,
}

-- The guards of `Start` on the run that is there.
unfoldable pub start_blocked : Option Run → Option Refusal
unfolding has_unconfirmed_cleanup has_incomplete_teardown
start_blocked none = none
start_blocked (some r) =
    if is_live r.state
    then some Refusal.run_in_progress
    else if is_active r.state
    then some Refusal.workload_running
    else if has_unconfirmed_cleanup r
    then some Refusal.cleanup_unconfirmed
    else if has_incomplete_teardown r
    then some Refusal.reset_unfinished
    else none

unfoldable pub start_refusal : Engine → Option Refusal
unfolding start_blocked
start_refusal e =
    if e.draining
    then some Refusal.draining
    else if e.recovered_pending
    then some Refusal.recovered_waiting
    else start_blocked e.current

abbrev pub first_phase : List Step → Phase
first_phase [] = unset
first_phase (s ∷ steps) = s.phase

-- The run that `Start` makes.
abbrev pub fresh_run : ℕ → String → Engine → Run
fresh_run now id e = record zero_run {
  id = id;
  state = running;
  phase = first_phase e.steps;
  started_at = now;
  updated_at = now;
  cluster_uid = e.cluster_uid;
  toolchain = e.toolchain;
}

-- `id` is what `newID` returned.
unfoldable pub start : ℕ → String → Engine → Answer
unfolding start_refusal
start now id e = elim (start_refusal e) [
  | some x ↦ refused x
  | none ↦
      accepted
        (record e {
          current = some (fresh_run now id e);
          resume = bump e.epoch;
          epoch = bump e.epoch;
          cancel = some (bump e.epoch);
        })
        (Thread.start_saving (bump e.epoch) id e.current)
]

-- The store has answered; `ok` when the record is saved. A failure puts the previous run back.
unfoldable pub start_saved : Bool → ℕ → String → Option Run → Engine → Moved
start_saved true epoch id previous e = moved e (Thread.executing epoch)
start_saved false epoch id previous e = ended (
    close_done epoch
      (if is_current id e.current && alive e epoch then record e { current = previous } else e))

retry_current : ℕ → String → Engine → Option Run → Answer
unfolding has_incomplete_teardown
retry_current now id e none = refused Refusal.run_not_found
retry_current now id e (some r) =
    if not (str_eq r.id id)
    then refused Refusal.run_not_found
    else if not (is_failed r.state)
    then refused Refusal.not_failed
    else if has_incomplete_teardown r
    then refused Refusal.reset_unfinished
    else accepted
        (record e {
          current = some (record r { state = running; err = ""; updated_at = now });
          recovered_pending = false;
          resume = bump e.epoch;
          epoch = bump e.epoch;
          cancel = some (bump e.epoch);
        })
        (Thread.retry_saving (bump e.epoch) id r.err e.recovered_pending)

unfoldable pub retry : ℕ → String → Engine → Answer
unfolding retry_current
retry now id e = if e.draining then refused Refusal.draining else retry_current now id e e.current

unfoldable pub failed_again : ℕ → String → Option Run → Option Run
failed_again now prev_err none = none
failed_again now prev_err (some r) =
    some (record r { state = failed; err = prev_err; updated_at = now })

unfoldable pub retry_saved : Bool → ℕ → ℕ → String → String → Bool → Engine → Moved
unfolding failed_again
retry_saved true now epoch id prev_err prev_pending e =
    publishing (event Kind.phase Level.unset id unset "run retrying" ∷ [])
      (moved e (Thread.executing epoch))
retry_saved false now epoch id prev_err prev_pending e = ended (
    close_done epoch (
      if is_current id e.current && alive e epoch
      then record e {
        current = failed_again now prev_err e.current;
        recovered_pending = prev_pending;
      }
      else e))

-- The first key of a submission that is not pending. Go ranges over a map, so which of several is
-- named is not fixed there.
unfoldable pub unrequested : List String → List (String × String) → Option String
unrequested pending [] = none
unrequested pending ((k, v) ∷ ds) = if member k pending then unrequested pending ds else some k

-- The first pending key that a submission lacks.
unfoldable pub missing_key : List String → List (String × String) → Option String
unfolding find
missing_key [] ds = none
missing_key (k ∷ pending) ds = if has_key k ds then missing_key pending ds else some k

unfoldable pub decided : ℕ → List (String × String) → Run → Run
unfolding assign_all
decided now ds r = record r {
  decisions = assign_all ds r.decisions;
  pending = [];
  state = running;
  updated_at = now;
}

unfoldable pub decide_current : ℕ → String → List (String × String) → Engine → Option Run → Answer
unfolding unrequested missing_key decided
decide_current now id ds e none = refused Refusal.run_not_found
decide_current now id ds e (some r) =
    if not (str_eq r.id id)
    then refused Refusal.run_not_found
    else if not (is_awaiting r.state)
    then refused Refusal.not_awaiting
    else elim (unrequested r.pending ds) [
      | some k ↦ refused (Refusal.decision_not_requested k)
      | none ↦ elim (missing_key r.pending ds) [
        | some k ↦ refused (Refusal.decision_missing k)
        | none ↦
            accepted (record e { current = some (decided now ds r) })
              (Thread.decide_saving e.epoch id r)
      ]
    ]

unfoldable pub decide : ℕ → String → List (String × String) → Engine → Answer
unfolding decide_current
decide now id ds e = decide_current now id ds e e.current

-- The fields that a failed save takes back, on a run that is still live.
unfoldable pub undecided : Run → Option Run → Option Run
undecided prev none = none
undecided prev (some r) = some (
    if is_live r.state
    then record r {
      decisions = prev.decisions;
      pending = prev.pending;
      state = prev.state;
      updated_at = prev.updated_at;
    }
    else r)

unfoldable pub decide_saved : Bool → ℕ → String → Run → Engine → Moved
unfolding undecided
decide_saved true epoch id prev e = ended (
    if is_current id e.current && alive e epoch && not (contains e.resume e.signals)
    then record e { signals = e.resume ∷ e.signals }
    else e)
decide_saved false epoch id prev e = ended (
    if is_current id e.current && alive e epoch
    then record e { current = undecided prev e.current }
    else e)

discard_current : String → Engine → Option Run → Answer
unfolding has_unconfirmed_cleanup has_incomplete_teardown
discard_current id e none = refused Refusal.run_not_found
discard_current id e (some r) =
    if not (str_eq r.id id)
    then refused Refusal.run_not_found
    else if is_live r.state
    then refused Refusal.run_is_live
    else if is_active r.state
    then refused Refusal.workload_held
    else if has_unconfirmed_cleanup r
    then refused Refusal.cleanup_unconfirmed
    else if has_incomplete_teardown r
    then refused Refusal.reset_unfinished
    else accepted (record e { current = none; recovered_pending = false })
        (Thread.discard_deleting e.epoch r e.recovered_pending)

unfoldable pub discard : String → Engine → Answer
unfolding discard_current
discard id e = if e.draining then refused Refusal.draining else discard_current id e e.current

abbrev pub is_nil : Option Run → Bool
is_nil none = true
is_nil (some r) = false

unfoldable pub discard_deleted : Bool → ℕ → Run → Bool → Engine → Moved
discard_deleted true epoch previous prev_pending e = ended e
discard_deleted false epoch previous prev_pending e = ended (
    if is_nil e.current && alive e epoch
    then record e { current = some previous; recovered_pending = prev_pending }
    else e)
