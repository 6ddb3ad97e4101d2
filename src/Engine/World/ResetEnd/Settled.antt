-- ===== src/Engine/World/ResetEnd/Settled.antt =====
-- internal/engine/reset.go and store.go: what the goroutine of a reset leaves behind.
use aicrme.Prelude.{
  ℕ, suc, String, str_eq, eq_iff, Bool, true, false, not, ◌&&◌, ◌||◌, ◌++◌, none, some, arith, ◌≡◌,
  refl, if◌then◌else◌, Bool-cases, inl, inr, find, find-assign,
}
use aicrme.Engine.Run.{Run, failed, done}
use aicrme.Engine.Codec.{Codec}
use aicrme.Engine.State.{Engine, Thread, After, contains, alive, close_done}
use aicrme.Engine.Store.{MemoryStore, save, delete_current, load_current, load-delete_current}
use aicrme.Engine.Report.{reset_summary}
use aicrme.Engine.Finish.{finish_saved, clear_active_action, finished_run}
use aicrme.Engine.Teardown.{namespace_residue, any_error, reset_deleted, reset_ended}
use aicrme.Engine.Teardown.Verdict.{residue_of}
use aicrme.Engine.World.{advance}
use aicrme.Engine.World.ResetEnd.{
  Answers, on_store, Ending, pursue_reset, goes_on, ends_here, finish_ends, removal_concluded,
}

module _ (codec : Codec) (now : ℕ) (ans : Answers) where
  -- The goroutine is gone, the run ends as `last`, and the store forgets the run or still has one.
  abbrev Leaves : Run → Bool → MemoryStore → Ending → Type 0
  Leaves last forgotten m end =
      (end.2 ≡ none)
      × (end.0.current ≡ some last)
      × (load_current end.1
          ≡ (if forgotten then none else if ans.saved then some last else load_current m))

  saved_current :
      (last : Run) (m : MemoryStore)
      → str_eq last.id "" ≡ false
      → load_current (if ans.saved then save last m else m)
        ≡ (if ans.saved then some last else load_current m)
  unfolding save load_current find
  saved_current last m named =
      ground (arith, named, eq_iff last.id last.id, find-assign last.id last.id last m.runs)

  deleted_current :
      (last : Run) (m : MemoryStore)
      → str_eq last.id "" ≡ false
      → load_current (
          if ans.deleted
          then delete_current (if ans.saved then save last m else m)
          else if ans.saved
          then save last m
          else m)
        ≡ (if ans.deleted then none else if ans.saved then some last else load_current m)
  deleted_current last m named = elim (Bool-cases ans.deleted) [
    | inl q ↦ rw q (load-delete_current "" (if ans.saved then save last m else m)).0
    | inr q ↦ rw q (saved_current last m named)
  ]

  failing_ends :
      (n epoch : ℕ) (msg : String) (e : Engine) (r : Run) (m : MemoryStore)
      → alive e epoch ≡ true
      → e.current ≡ some r
      → str_eq r.id "" ≡ false
      → Leaves (finished_run now failed msg r) false m (
          pursue_reset codec now ans
            (suc (suc (suc (suc (suc n)))))
            (Thread.finishing epoch failed msg After.goroutine_ends)
            e
            m)
  unfolding advance finish_saved clear_active_action
  failing_ends n epoch msg e r m live cur named =
      let last = finished_run now failed msg r in
      let e' = clear_active_action epoch (record e { current = some last }) in
      rw
        (
          finish_ends codec now ans (suc (suc (suc n))) epoch failed msg After.goroutine_ends e r m
              live cur,
          ends_here codec now ans (suc (suc n))
              (Thread.finish_saving epoch r.id failed After.goroutine_ends) e' (close_done epoch e')
              m refl refl,
        )
        ((refl, rw live refl, rw live (saved_current last m named)))

  succeeding_ends :
      (n epoch : ℕ) (e : Engine) (r : Run) (m : MemoryStore)
      → alive e epoch ≡ true
      → e.current ≡ some r
      → str_eq r.id "" ≡ false
      → Leaves (finished_run now done "" r) ans.deleted m (
          pursue_reset codec now ans
            (suc (suc (suc (suc (suc n)))))
            (Thread.finishing epoch done "" (After.record_deleted r.id))
            e
            m)
  unfolding advance finish_saved clear_active_action reset_deleted reset_ended
  succeeding_ends n epoch e r m live cur named =
      let last = finished_run now done "" r in
      let after = After.record_deleted r.id in
      let e' = clear_active_action epoch (record e { current = some last }) in
      let m' = on_store ans (Thread.finish_saving epoch r.id done after) e' m in
      rw
        (
          finish_ends codec now ans (suc (suc (suc n))) epoch done "" after e r m live cur,
          goes_on codec now ans (suc (suc n)) (Thread.finish_saving epoch r.id done after)
              (Thread.reset_deleting epoch r.id) e' e' m refl refl,
          goes_on codec now ans (suc n) (Thread.reset_deleting epoch r.id)
              (Thread.reset_ending epoch) e' e' m' refl refl,
          ends_here codec now ans n (Thread.reset_ending epoch) e' _
              (on_store ans (Thread.reset_deleting epoch r.id) e' m') refl refl,
        )
        (refl, rw (live, live) refl, rw live (deleted_current last m named))

-- The goroutine of a reset ends, whatever the teardown returned and whether or not the store saves and
-- deletes. It is counted from the return of the teardown, on a live goroutine whose run, with an
-- identifier, is the current one, and alone with the store. A reset that was canceled, or one of whose
-- releases failed, leaves the run failed, with the summary, and deletes no record. Any other reset
-- leaves the run done, and no current record in the store if the deletion succeeds. Either way the run
-- holds every item of the teardown and of the namespaces, with that verdict, and a current record that
-- is not deleted is the run as it ended, or what was there before if the save failed.
pub reset_settles :
    (codec : Codec) (now epoch : ℕ) (ans : Answers) (e : Engine) (r : Run) (m : MemoryStore)
    → alive e epoch ≡ true
    → e.current ≡ some r
    → str_eq r.id "" ≡ false
    → let incomplete = contains epoch e.canceled || any_error ans.items in
      let residue =
        residue_of incomplete
          (ans.items ++ namespace_residue r.ownership r.agent_namespace r.validation.namespace) in
      let last = record r {
        state = if incomplete then failed else done;
        err = if incomplete then reset_summary codec residue else "";
        residue = residue;
        updated_at = now;
      } in
      let end = pursue_reset codec now ans 8 (Thread.reset_removing epoch r.id r) e m in
      (end.2 ≡ none)
      × (end.0.current ≡ some last)
      × (load_current end.1 ≡ (
          if not incomplete && ans.deleted
          then none
          else if ans.saved
          then some last
          else load_current m))
reset_settles codec now epoch ans e r m live cur named =
    elim (Bool-cases (contains epoch e.canceled || any_error ans.items)) [
      | inl q ↦
          rw (q, removal_concluded codec now ans 5 epoch e r m true live cur q)
            (failing_ends codec now ans 0 epoch _ _ _ m live refl named)
      | inr q ↦
          rw (q, removal_concluded codec now ans 5 epoch e r m false live cur q)
            (succeeding_ends codec now ans 0 epoch _ _ m live refl named)
    ]
