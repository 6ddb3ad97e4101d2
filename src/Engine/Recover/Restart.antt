-- ===== src/Engine/Recover/Restart.antt =====
-- internal/engine/recover.go: what a restart makes of the saved record.
use aicrme.Prelude.{
  inl, inr, ap, ℕ, ◌≤◌, String, Bool, true, false, [], some, arith, ◌≡◌, refl, ◌∙◌, ltb, not, ◌&&◌,
  if◌then◌else◌,
}
use aicrme.Engine.Run.{Run, is_live, is_failed, is_idle, is_resetting}
use aicrme.Engine.State.{Engine, live}
use aicrme.Engine.Recover.Bundle.{recover_installs}
use aicrme.Engine.Calls.{start_refusal, start, retry, discard}
use aicrme.Engine.Calls.Guards.{is_accepted, owed_teardown_blocks}
use aicrme.Engine.Recover.{
  recovered_run, recover, Loaded, load_failed, retryable, load_current_with_retry, other_code,
}

-- The record that `Recover` installs: it is never live or idle, asks for no decision, restarts at or
-- before the bundle step when it failed, and owes a teardown exactly when it did or was interrupted in
-- one. What the run has installed and decided is kept.
pub recovered_run_lem :
    (bundle : ℕ) (r : Run)
    → let r' = recovered_run bundle r in
      (is_live r'.state ≡ false)
      × (is_idle r'.state ≡ false)
      × (r'.pending ≡ [])
      × ((is_failed r'.state && ltb bundle r'.step_index) ≡ false)
      × (r'.step_index ≤ r.step_index)
      × (r'.residue.incomplete ≡ (if is_resetting r.state then true else r.residue.incomplete))
      × (r'.id ≡ r.id)
      × (r'.decisions ≡ r.decisions)
      × (r'.components ≡ r.components)
      × (r'.ownership ≡ r.ownership)
      × (r'.workload ≡ r.workload)
      × (r'.cleanup_unconfirmed ≡ r.cleanup_unconfirmed)
unfolding recovered_run
recovered_run_lem bundle r = ground arith

recovered_run-settled :
    (bundle : ℕ) (r : Run)
    → is_live r.state ≡ false
    → is_idle r.state ≡ false
    → r.pending ≡ []
    → (is_failed r.state && ltb bundle r.step_index) ≡ false
    → recovered_run bundle r ≡ r
unfolding recovered_run
recovered_run-settled bundle r h k l m = ground arith

-- A second restart changes nothing more.
pub recovered_run_idem :
    (bundle : ℕ) (r : Run) → recovered_run bundle (recovered_run bundle r) ≡ recovered_run bundle r
recovered_run_idem bundle r =
    let p = recovered_run_lem bundle r in
    recovered_run-settled bundle (recovered_run bundle r) p.0 p.1 p.2 p.3

pending_blocks :
    (e : Engine) (now : ℕ) (id : String)
    → e.recovered_pending ≡ true
    → is_accepted (start now id e) ≡ false
unfolding start start_refusal
pending_blocks e now id h = ground arith

-- In an engine without a live run, a `Recover` after which a recovered run waits leaves no run live, and
-- `Start` is refused then.
pub recover-blocks_start :
    (load : ℕ → Loaded) (done : ℕ → Bool) (e : Engine) (now : ℕ) (id : String)
    → live e.current ≡ false
    → (recover load done e).0.recovered_pending ≡ true
    → let e' = (recover load done e).0 in
      (live e'.current ≡ false) × (is_accepted (start now id e') ≡ false)
recover-blocks_start load done e now id h k = elim (recover_installs load done e) [
  | inl (c, p) ↦ (ap live c ∙ h, pending_blocks (recover load done e).0 now id k)
  | inr (b, r, q, l, v, m, c, p) ↦
      (ap live c ∙ (recovered_run_lem b r).0, pending_blocks (recover load done e).0 now id k)
]

-- A run that was interrupted in a reset, once it is recovered, refuses `Start`, `Retry` and `Discard`.
pub interrupted_reset_owes :
    (bundle : ℕ) (e : Engine) (r : Run) (now : ℕ) (id : String)
    → is_resetting r.state ≡ true
    → e.current ≡ some (recovered_run bundle r)
    → (is_accepted (start now id e) ≡ false)
      × (is_accepted (retry now id e) ≡ false)
      × (is_accepted (discard id e) ≡ false)
interrupted_reset_owes bundle e r now id h k =
    owed_teardown_blocks now id e (recovered_run bundle r) k
      ((recovered_run_lem bundle r).5 ∙ rw h refl)

-- The load that `Recover` acts on: the first answer that is not worth another attempt, among at most
-- three; without one, the third, or an error of another code when the context ended in between.
pub load_current_with_retry_lem :
    (load : ℕ → Loaded) (done : ℕ → Bool)
    → load_current_with_retry load done ≡ (
        if not (retryable (load 0))
        then load 0
        else if done 0
        then load_failed other_code
        else if not (retryable (load 1))
        then load 1
        else if done 1
        then load_failed other_code
        else load 2)
unfolding load_current_with_retry
load_current_with_retry_lem load done = ground arith
