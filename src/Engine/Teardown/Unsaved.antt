-- ===== src/Engine/Teardown/Unsaved.antt =====
-- internal/engine/reset.go: a `Reset` whose first save fails.
use aicrme.Prelude.{ℕ, String, eq_iff, true, false, some, arith, ◌≡◌, ◌∙◌}
use aicrme.Engine.Run.{Run, stoppable, has_unconfirmed_cleanup, has_incomplete_teardown}
use aicrme.Engine.State.{Engine, Thread, accepted}
use aicrme.Engine.Calls.{start, start_refusal, retry, discard}
use aicrme.Engine.Calls.Guards.{is_accepted}
use aicrme.Engine.Teardown.{stop, reset, reset_refusal, reset_saved, reset_unsaved, resetting_run}

unsaved :
    (now later : ℕ) (id : String) (e e' : Engine) (r : Run) (epoch : ℕ) (id' : String)
    → e.current ≡ some r
    → reset now id e ≡ accepted e' (Thread.reset_saving epoch id')
    → let e'' = (reset_saved false later epoch id' e').engine in
      (e''.current ≡ reset_unsaved later (resetting_run now (some r)))
      × (r.id ≡ id)
      × (e''.draining ≡ false)
      × (e''.recovered_pending ≡ e.recovered_pending)
unfolding reset reset_refusal reset_saved resetting_run reset_unsaved
unsaved now later id e e' r epoch id' h k = ground (arith, eq_iff r.id id, eq_iff r.id id')

free :
    (now later t : ℕ) (new_id id : String) (e : Engine) (r : Run)
    → e.current ≡ reset_unsaved later (resetting_run now (some r))
    → r.id ≡ id
    → e.draining ≡ false
    → e.recovered_pending ≡ false
    → r.cleanup_unconfirmed ≡ false
    → (is_accepted (start t new_id e) ≡ true)
      × (is_accepted (retry t id e) ≡ true)
      × (is_accepted (discard id e) ≡ true)
      × (is_accepted (stop id e) ≡ false)
unfolding start start_refusal retry discard stop stoppable has_unconfirmed_cleanup
    has_incomplete_teardown resetting_run reset_unsaved
free now later t new_id id e r h k l m n = ground (arith, eq_iff r.id id)

-- An accepted `Reset` whose save fails, with nothing else in between, forgets what the run still has on the cluster: whether the run
-- was active with its workload or owed a teardown, `Start`, `Retry` and `Discard` are accepted after it
-- and `Stop` is refused, for a run without an unconfirmed cleanup and no recovered run waiting.
pub unsaved_reset_forgets :
    (now later t : ℕ) (new_id id : String) (e e' : Engine) (r : Run) (epoch : ℕ) (id' : String)
    → e.current ≡ some r
    → e.recovered_pending ≡ false
    → r.cleanup_unconfirmed ≡ false
    → reset now id e ≡ accepted e' (Thread.reset_saving epoch id')
    → let e'' = (reset_saved false later epoch id' e').engine in
      (is_accepted (start t new_id e'') ≡ true)
      × (is_accepted (retry t id e'') ≡ true)
      × (is_accepted (discard id e'') ≡ true)
      × (is_accepted (stop id e'') ≡ false)
unsaved_reset_forgets now later t new_id id e e' r epoch id' h p c k =
    let u = unsaved now later id e e' r epoch id' h k in
    free now later t new_id id (reset_saved false later epoch id' e').engine r u.0 u.1 u.2 (u.3 ∙ p)
      c
