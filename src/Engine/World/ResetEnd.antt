-- ===== src/Engine/World/ResetEnd.antt =====
-- internal/engine/reset.go, engine.go and store.go: the goroutine of a reset by itself, from the end of
-- the teardown to its own, with the store in memory that it saves to and deletes from.
pub mod Settled
use aicrme.Prelude.{
  ℕ, zero, suc, String, eq_iff, Bool, true, ◌||◌, List, ◌++◌, Option, none, some, arith, ◌≡◌, refl,
  ap, ◌∙◌, if◌then◌else◌,
}
use aicrme.Engine.Run.{Run, State, failed, done, ResidueItem, Residue}
use aicrme.Engine.Codec.{Codec}
use aicrme.Engine.State.{Engine, Thread, After, contains, alive}
use aicrme.Engine.Store.{MemoryStore, save, delete_current}
use aicrme.Engine.Report.{reset_summary}
use aicrme.Engine.Finish.{finish, finish_cleared, clear_active_action, finished_run}
use aicrme.Engine.Teardown.{
  namespace_residue, any_error, reset_removed, record_residue, reset_concluded,
}
use aicrme.Engine.Teardown.Residues.{any_error-append_left, namespace_residue-IsLeft}
use aicrme.Engine.World.{Outcome, runs, stored, releases_returned, advance}

-- The outcomes of what the goroutine calls: the items of `Releases`, and whether the store saves and
-- deletes.
pub record Answers : Type 0 where
  pub items : List ResidueItem
  pub saved : Bool
  pub deleted : Bool

abbrev pub reset_answer : Answers → Thread → Outcome
reset_answer ans (Thread.reset_removing epoch id run) = releases_returned ans.items
reset_answer ans (Thread.finish_saving epoch id state after) = stored ans.saved
reset_answer ans (Thread.reset_deleting epoch id) = stored ans.deleted
reset_answer ans t = runs

-- The store after the save of `finish`, which is of the run as `finish` has left it.
abbrev pub finish_store : Bool → Option Run → MemoryStore → MemoryStore
finish_store saved none m = m
finish_store saved (some r) m = if saved then save r m else m

-- The store after the deletion at the end of a reset that is complete.
abbrev pub reset_store : Bool → MemoryStore → MemoryStore
reset_store deleted m = if deleted then delete_current m else m

-- The store after a move of the goroutine, which is alone, so that `finish` still has its run as the
-- current one when it saves.
abbrev pub on_store : Answers → Thread → Engine → MemoryStore → MemoryStore
on_store ans (Thread.finish_saving epoch id state after) e m = finish_store ans.saved e.current m
on_store ans (Thread.reset_deleting epoch id) e m = reset_store ans.deleted m
on_store ans t e m = m

abbrev pub Ending : Type 0
Ending = Engine × MemoryStore × Option Thread

abbrev or_end : (Thread → Ending) → Option Thread → Engine → MemoryStore → Ending
or_end k none e m = (e, m, none)
or_end k (some t) e m = k t

-- The goroutine for at most `n` of its moves.
unfoldable pub pursue_reset : Codec → ℕ → Answers → ℕ → Thread → Engine → MemoryStore → Ending
unfolding advance save delete_current
pursue_reset codec now ans zero t e m = (e, m, some t)
pursue_reset codec now ans (suc n) t e m =
    let went = advance codec now (reset_answer ans t) t e in
    let m' = on_store ans t e m in
    or_end (λ t'. pursue_reset codec now ans n t' went.engine m') went.next went.engine m'

module _ (codec : Codec) (now : ℕ) (ans : Answers) where
  pub goes_on :
      (n : ℕ) (t t' : Thread) (e e' : Engine) (m : MemoryStore)
      → (advance codec now (reset_answer ans t) t e).next ≡ some t'
      → (advance codec now (reset_answer ans t) t e).engine ≡ e'
      → pursue_reset codec now ans (suc n) t e m
        ≡ pursue_reset codec now ans n t' e' (on_store ans t e m)
  unfolding pursue_reset
  goes_on n t t' e e' m h g =
      let went = advance codec now (reset_answer ans t) t e in
      let m' = on_store ans t e m in
      ap (λ o. or_end (λ u. pursue_reset codec now ans n u went.engine m') o went.engine m') h
      ∙ ap (λ x. pursue_reset codec now ans n t' x m') g

  pub ends_here :
      (n : ℕ) (t : Thread) (e e' : Engine) (m : MemoryStore)
      → (advance codec now (reset_answer ans t) t e).next ≡ none
      → (advance codec now (reset_answer ans t) t e).engine ≡ e'
      → pursue_reset codec now ans (suc n) t e m ≡ (e', on_store ans t e m, none)
  unfolding pursue_reset
  ends_here n t e e' m h g =
      let went = advance codec now (reset_answer ans t) t e in
      let m' = on_store ans t e m in
      ap (λ o. or_end (λ u. pursue_reset codec now ans n u went.engine m') o went.engine m') h
      ∙ ap (λ x. (x, m', none)) g

  -- From the beginning of `finish`, with the state, the message and what comes after it.
  pub finish_ends :
      (n epoch : ℕ) (state : State) (msg : String) (after : After) (e : Engine) (r : Run)
      (m : MemoryStore)
      → alive e epoch ≡ true
      → e.current ≡ some r
      → let last = finished_run now state msg r in
        let e' = clear_active_action epoch (record e { current = some last }) in
        pursue_reset codec now ans (suc (suc n)) (Thread.finishing epoch state msg after) e m
        ≡ pursue_reset codec now ans n (Thread.finish_saving epoch r.id state after) e' m
  unfolding advance finish finish_cleared
  finish_ends n epoch state msg after e r m live cur =
      let e1 : Engine = record e { current = some (finished_run now state msg r) } in
      goes_on (suc n) (Thread.finishing epoch state msg after)
        (Thread.finish_clearing epoch r.id state after) e e1 m (rw (cur, live) refl)
        (rw (cur, live) refl)
      ∙ goes_on n (Thread.finish_clearing epoch r.id state after)
          (Thread.finish_saving epoch r.id state after) e1 _ m refl refl

  -- From the answer of the teardown to the beginning of `finish`.
  pub removal_concluded :
      (n epoch : ℕ) (e : Engine) (r : Run) (m : MemoryStore) (incomplete : Bool)
      → alive e epoch ≡ true
      → e.current ≡ some r
      → (contains epoch e.canceled || any_error ans.items) ≡ incomplete
      → let all =
          ans.items ++ namespace_residue r.ownership r.agent_namespace r.validation.namespace in
        let residue : Residue = record { incomplete = incomplete; items = all } in
        let e' = record e { current = some (record r { residue = residue; updated_at = now }) } in
        pursue_reset codec now ans (suc (suc (suc n))) (Thread.reset_removing epoch r.id r) e m
        ≡ pursue_reset codec now ans n
            (if incomplete
              then Thread.finishing epoch failed (reset_summary codec residue) After.goroutine_ends
              else Thread.finishing epoch done "" (After.record_deleted r.id))
            e'
            m
  unfolding advance reset_removed record_residue reset_concluded
  removal_concluded n epoch e r m incomplete live cur same =
      let all =
        ans.items ++ namespace_residue r.ownership r.agent_namespace r.validation.namespace in
      let residue : Residue = record { incomplete = incomplete; items = all } in
      let e' : Engine = record e {
        current = some (record r { residue = residue; updated_at = now });
      } in
      goes_on (suc (suc n)) (Thread.reset_removing epoch r.id r)
        (Thread.reset_recording epoch r.id all incomplete none) e e m
        (ground (
          arith,
          same,
          any_error-append_left ans.items
              (namespace_residue r.ownership r.agent_namespace r.validation.namespace)
              (namespace_residue-IsLeft r.ownership r.agent_namespace r.validation.namespace),
        ))
        refl
      ∙ goes_on (suc n) (Thread.reset_recording epoch r.id all incomplete none)
          (Thread.reset_concluding epoch r.id incomplete) e e' m refl
          (ground (arith, live, cur, eq_iff r.id r.id))
      ∙ goes_on n (Thread.reset_concluding epoch r.id incomplete) _ e' e' m
          (ground (arith, live, eq_iff r.id r.id)) (ground (arith, live, eq_iff r.id r.id))
