-- ===== src/Engine/World/Owner/Serve.antt =====
-- internal/engine: every section of the calls, of `finish` and of the teardown is sound.
use aicrme.Prelude.{ℕ, String, Bool, true, false, List, Option, arith}
use aicrme.Engine.Run.{Run, State, ResidueItem}
use aicrme.Engine.Codec.{Codec}
use aicrme.Engine.State.{Engine, Thread, After}
use aicrme.Engine.Calls.{start_saved, retry_saved, decide_saved, discard_deleted}
use aicrme.Engine.Finish.{finish, finish_cleared, finish_saved}
use aicrme.Engine.Teardown.{
  stop_absent, stop_recorded, stop_ended, reset_saved, reset_read, reset_absent, reset_removed,
  record_residue, reset_concluded, reset_deleted, reset_ended,
}
use aicrme.Engine.World.Owner.{KeepsOrder}

pub start_saved-KeepsOrder :
    (e : Engine) (ok : Bool) (epoch : ℕ) (id : String) (previous : Option Run)
    → KeepsOrder e (Thread.start_saving epoch id previous) (start_saved ok epoch id previous e)
unfolding start_saved
start_saved-KeepsOrder e true epoch id previous p c = ground arith
start_saved-KeepsOrder e false epoch id previous p c = ground arith

pub retry_saved-KeepsOrder :
    (e : Engine) (ok : Bool) (now epoch : ℕ) (id prev_err : String) (prev_pending : Bool)
    → KeepsOrder e
        (Thread.retry_saving epoch id prev_err prev_pending)
        (retry_saved ok now epoch id prev_err prev_pending e)
unfolding retry_saved
retry_saved-KeepsOrder e true now epoch id prev_err prev_pending p c = ground arith
retry_saved-KeepsOrder e false now epoch id prev_err prev_pending p c = ground arith

pub decide_saved-KeepsOrder :
    (e : Engine) (ok : Bool) (epoch : ℕ) (id : String) (prev : Run)
    → KeepsOrder e (Thread.decide_saving epoch id prev) (decide_saved ok epoch id prev e)
unfolding decide_saved
decide_saved-KeepsOrder e true epoch id prev p c = ground arith
decide_saved-KeepsOrder e false epoch id prev p c = ground arith

pub discard_deleted-KeepsOrder :
    (e : Engine) (ok : Bool) (epoch : ℕ) (previous : Run) (prev_pending : Bool)
    → KeepsOrder e
        (Thread.discard_deleting epoch previous prev_pending)
        (discard_deleted ok epoch previous prev_pending e)
unfolding discard_deleted
discard_deleted-KeepsOrder e true epoch previous prev_pending p c = ground arith
discard_deleted-KeepsOrder e false epoch previous prev_pending p c = ground arith

pub stop_absent-KeepsOrder :
    (e : Engine) (ok : Bool) (epoch : ℕ) (id : String)
    → KeepsOrder e (Thread.stop_waiting epoch id) (stop_absent ok epoch id e)
unfolding stop_absent
stop_absent-KeepsOrder e true epoch id p c = ground arith
stop_absent-KeepsOrder e false epoch id p c = ground arith

pub stop_recorded-KeepsOrder :
    (e : Engine) (epoch : ℕ) (id : String)
    → KeepsOrder e (Thread.stop_recording epoch id) (stop_recorded epoch id e)
unfolding stop_recorded
stop_recorded-KeepsOrder e epoch id p c = ground arith

pub stop_ended-KeepsOrder : (e : Engine) → KeepsOrder e Thread.stop_ending (stop_ended e)
unfolding stop_ended
stop_ended-KeepsOrder e p c = ground arith

pub reset_saved-KeepsOrder :
    (e : Engine) (ok : Bool) (now epoch : ℕ) (id : String)
    → KeepsOrder e (Thread.reset_saving epoch id) (reset_saved ok now epoch id e)
unfolding reset_saved
reset_saved-KeepsOrder e true now epoch id p c = ground arith
reset_saved-KeepsOrder e false now epoch id p c = ground arith

pub finish-KeepsOrder :
    (e : Engine) (now epoch : ℕ) (state : State) (msg : String) (after : After)
    → KeepsOrder e (Thread.finishing epoch state msg after) (finish now epoch state msg after e)
unfolding finish
finish-KeepsOrder e now epoch state msg After.goroutine_ends p c = ground arith
finish-KeepsOrder e now epoch state msg After.stop_returns p c = ground arith
finish-KeepsOrder e now epoch state msg (After.record_deleted id) p c = ground arith
finish-KeepsOrder e now epoch state msg After.reconcile_goes_on p c = ground arith

pub finish_cleared-KeepsOrder :
    (e : Engine) (epoch : ℕ) (id : String) (state : State) (after : After)
    → KeepsOrder e
        (Thread.finish_clearing epoch id state after)
        (finish_cleared epoch id state after e)
unfolding finish_cleared
finish_cleared-KeepsOrder e epoch id state after p c = ground arith

pub finish_saved-KeepsOrder :
    (e : Engine) (ok : Bool) (epoch : ℕ) (id : String) (state : State) (after : After)
    → KeepsOrder e
        (Thread.finish_saving epoch id state after)
        (finish_saved ok epoch id state after e)
unfolding finish_saved
finish_saved-KeepsOrder e ok epoch id state After.goroutine_ends p c = ground arith
finish_saved-KeepsOrder e ok epoch id state After.stop_returns p c = ground arith
finish_saved-KeepsOrder e ok epoch id state (After.record_deleted rid) p c = ground arith
finish_saved-KeepsOrder e ok epoch id state After.reconcile_goes_on p c = ground arith

pub reset_read-KeepsOrder :
    (e : Engine) (epoch : ℕ) (id : String)
    → KeepsOrder e (Thread.reset_reading epoch id) (reset_read epoch id e)
unfolding reset_read
reset_read-KeepsOrder e epoch id p c = ground arith

pub reset_absent-KeepsOrder :
    (e : Engine) (codec : Codec) (err : Option String) (epoch : ℕ) (id : String) (run : Run)
    → KeepsOrder e (Thread.reset_stopping epoch id run) (reset_absent codec err epoch id run e)
unfolding reset_absent
reset_absent-KeepsOrder e codec err epoch id run p c = ground arith

pub reset_removed-KeepsOrder :
    (e : Engine) (codec : Codec) (items : List ResidueItem) (epoch : ℕ) (id : String) (run : Run)
    → KeepsOrder e (Thread.reset_removing epoch id run) (reset_removed codec items epoch id run e)
unfolding reset_removed
reset_removed-KeepsOrder e codec items epoch id run p c = ground arith

pub record_residue-KeepsOrder :
    (e : Engine) (now epoch : ℕ) (id : String) (items : List ResidueItem) (incomplete : Bool)
    (abort : Option String)
    → KeepsOrder e
        (Thread.reset_recording epoch id items incomplete abort)
        (record_residue now epoch id items incomplete abort e)
unfolding record_residue
record_residue-KeepsOrder e now epoch id items incomplete abort p c = ground arith

pub reset_concluded-KeepsOrder :
    (e : Engine) (codec : Codec) (epoch : ℕ) (id : String) (incomplete : Bool)
    → KeepsOrder e
        (Thread.reset_concluding epoch id incomplete)
        (reset_concluded codec epoch id incomplete e)
unfolding reset_concluded
reset_concluded-KeepsOrder e codec epoch id incomplete p c = ground arith

pub reset_deleted-KeepsOrder :
    (e : Engine) (epoch : ℕ) (id : String)
    → KeepsOrder e (Thread.reset_deleting epoch id) (reset_deleted epoch e)
unfolding reset_deleted
reset_deleted-KeepsOrder e epoch id p c = ground arith

pub reset_ended-KeepsOrder :
    (e : Engine) (epoch : ℕ) → KeepsOrder e (Thread.reset_ending epoch) (reset_ended epoch e)
unfolding reset_ended
reset_ended-KeepsOrder e epoch p c = ground arith
