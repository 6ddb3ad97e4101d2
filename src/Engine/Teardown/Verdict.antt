-- ===== src/Engine/Teardown/Verdict.antt =====
-- internal/engine/reset.go: the residue that a reset records, and how it ends before it removes anything.
use aicrme.Prelude.{ℕ, String, eq_iff, Bool, true, List, [], some, arith, ◌≡◌, refl}
use aicrme.Engine.Run.{Run, failed, ResidueItem, Residue}
use aicrme.Engine.Codec.{Codec}
use aicrme.Engine.State.{Engine, Thread, After, alive}
use aicrme.Engine.Teardown.{record_residue, reset_absent}

abbrev pub residue_of : Bool → List ResidueItem → Residue
residue_of incomplete items = record { incomplete = incomplete; items = items }

-- A workload whose absence is not confirmed stops the reset before anything is removed: the record says
-- that it is incomplete, with no item, and the run ends as failed.
pub reset-unconfirmed :
    (codec : Codec) (now epoch : ℕ) (err : String) (e : Engine) (r : Run)
    → alive e epoch ≡ true
    → e.current ≡ some r
    → (msg : String) × ((reset_absent codec (some err) epoch r.id r e).next
        ≡ some (Thread.reset_recording epoch r.id [] true (some msg)))
      × ((record_residue now epoch r.id [] true (some msg) e).engine.current
          ≡ some (record r { residue = residue_of true []; updated_at = now }))
      × ((record_residue now epoch r.id [] true (some msg) e).next
          ≡ some (Thread.finishing epoch failed msg After.goroutine_ends))
unfolding reset_absent record_residue
reset-unconfirmed codec now epoch err e r h k = (_, refl, ground (arith, eq_iff r.id r.id), refl)
