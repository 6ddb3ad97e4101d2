-- ===== src/Engine/Calls/Guards.antt =====
-- internal/engine/engine.go, reset.go: what the guards of the calls have in common.
use aicrme.Prelude.{ℕ, String, eq_iff, Bool, true, false, some, arith, ◌≡◌}
use aicrme.Engine.Run.{
  Run, failed, is_live, has_unconfirmed_cleanup, has_incomplete_teardown, stoppable,
}
use aicrme.Engine.State.{Engine, Answer, refused, accepted}
use aicrme.Engine.Calls.{start, start_refusal, retry, discard}
use aicrme.Engine.Teardown.{reset, reset_refusal, stop}

abbrev pub is_accepted : Answer → Bool
is_accepted (refused x) = false
is_accepted (accepted e t) = true

-- While the record of a run says that its teardown is incomplete, `Start`, `Retry` and `Discard`
-- are refused whatever the state of the run and of the engine.
pub owed_teardown_blocks :
    (now : ℕ) (id : String) (e : Engine) (r : Run)
    → e.current ≡ some r
    → r.residue.incomplete ≡ true
    → (is_accepted (start now id e) ≡ false)
      × (is_accepted (retry now id e) ≡ false)
      × (is_accepted (discard id e) ≡ false)
unfolding start start_refusal retry discard has_unconfirmed_cleanup has_incomplete_teardown
owed_teardown_blocks now id e r h k = ground arith

-- In an engine that is not draining and has a client that is ready, a failed run whose cleanup was
-- never confirmed refuses `Start` and `Discard`, and accepts `Stop`.
pub unconfirmed_cleanup_stops :
    (now : ℕ) (id : String) (e : Engine) (r : Run)
    → e.current ≡ some r
    → r.state ≡ failed
    → r.cleanup_unconfirmed ≡ true
    → e.draining ≡ false
    → e.prove_client ≡ some true
    → (is_accepted (start now id e) ≡ false)
      × (is_accepted (discard id e) ≡ false)
      × (is_accepted (stop r.id e) ≡ true)
unfolding start start_refusal discard stop stoppable has_unconfirmed_cleanup
unconfirmed_cleanup_stops now id e r h k l m q = ground (arith, eq_iff r.id r.id)

-- While a run is live, `Start`, `Retry`, `Discard`, `Stop` and `Reset` are refused.
pub live_run_busy :
    (now : ℕ) (id : String) (e : Engine) (r : Run)
    → e.current ≡ some r
    → is_live r.state ≡ true
    → (is_accepted (start now id e) ≡ false)
      × (is_accepted (retry now id e) ≡ false)
      × (is_accepted (discard id e) ≡ false)
      × (is_accepted (stop id e) ≡ false)
      × (is_accepted (reset now id e) ≡ false)
unfolding start start_refusal retry discard stop reset reset_refusal stoppable
    has_unconfirmed_cleanup
live_run_busy now id e r h k = ground arith
