-- ===== src/Engine/World/Progress.antt =====
-- internal/engine: the goroutine of a run whose steps return and whose decisions are all there.
use aicrme.Prelude.{
  ℕ, zero, suc, ◌+◌, ◌-◌, ◌*◌, ◌≤◌, ◌≡◌, refl, sym, ap, subst, ◌∙◌, String, Bool, true, false, List,
  [], ◌∷◌, Option, none, some, arith, leb, if◌then◌else◌, length, All, assign, assign_all, has_key,
  find-assign, Bool-cases, inl, inr,
}
use aicrme.Engine.Codec.{Codec}
use aicrme.Engine.Run.{Run, is_apply}
use aicrme.Engine.State.{Engine, Step, Thread, After, alive, contains, close_done}
use aicrme.Engine.Finish.{finish, finish_cleared, finish_saved, clear_active_action, finished_run}
use aicrme.Engine.Execute.{
  step_at, terminal_state, missing, execute, await_decisions, run_step, step_saved, stepping_run,
}
use aicrme.Engine.Outcome.{merged_run, merge_step_success, merge_cleared, merge_saved}
use aicrme.Engine.World.{Outcome, runs, stored, step_returned, advance}

-- What a kind environment answers: a step returns and leaves its scratch copy in any way; a save may
-- succeed or fail.
abbrev pub kind_answer : (Step → Run → Run) → Bool → Thread → Outcome
kind_answer work ok (Thread.stepping epoch i s scratch) = step_returned (work s scratch)
kind_answer work ok (Thread.step_saving epoch i s scratch) = stored ok
kind_answer work ok (Thread.merge_saving epoch i s id) = stored ok
kind_answer work ok (Thread.finish_saving epoch id state after) = stored ok
kind_answer work ok t = runs

abbrev carry_on :
    (Thread → Engine × Option Thread) → Option Thread → Engine → Engine × Option Thread
carry_on k none e = (e, none)
carry_on k (some t) e = k t

-- The goroutine by itself for `n` of its steps; `saves` has the outcome of a save by the steps left.
unfoldable pub pursue :
    Codec → ℕ → (Step → Run → Run) → (ℕ → Bool) → ℕ → Thread → Engine → Engine × Option Thread
unfolding advance
pursue codec now work saves zero t e = (e, some t)
pursue codec now work saves (suc n) t e =
    let m = advance codec now (kind_answer work (saves n) t) t e in
    carry_on (λ t'. pursue codec now work saves n t' m.engine) m.next m.engine

-- The run and the engine after one step of the recipe.
abbrev stepped_run : ℕ → (Step → Run → Run) → ℕ → Step → Run → Run
stepped_run now work i s r =
    let r' = stepping_run now (s.phase) r in merged_run now i (work s r') r'

unfoldable stepped : ℕ → (Step → Run → Run) → ℕ → ℕ → Step → Run → Engine → Engine
unfolding clear_active_action
stepped now work epoch i s r e =
    let e' = record e { current = some (stepped_run now work i s r) } in
    if is_apply (s.phase) then clear_active_action epoch e' else e'

pursue-next :
    (codec : Codec) (now : ℕ) (work : Step → Run → Run) (saves : ℕ → Bool) (n : ℕ) (t t' : Thread)
    (e e' : Engine)
    → (advance codec now (kind_answer work (saves n) t) t e).next ≡ some t'
    → (advance codec now (kind_answer work (saves n) t) t e).engine ≡ e'
    → pursue codec now work saves (suc n) t e ≡ pursue codec now work saves n t' e'
unfolding pursue
pursue-next codec now work saves n t t' e e' h g =
    let m = advance codec now (kind_answer work (saves n) t) t e in
    ap (λ o. carry_on (λ u. pursue codec now work saves n u m.engine) o m.engine) h
    ∙ ap (pursue codec now work saves n t') g

turn :
    (codec : Codec) (now : ℕ) (work : Step → Run → Run) (saves : ℕ → Bool) (n epoch : ℕ)
    (e : Engine) (r : Run) (s : Step)
    → alive e epoch ≡ true
    → e.current ≡ some r
    → leb (length e.steps) r.step_index ≡ false
    → step_at r.step_index e.steps ≡ some s
    → missing s.requires r.decisions ≡ []
    → pursue codec now work saves
        (suc (suc (suc (suc (suc (suc (suc (suc n))))))))
        (Thread.executing epoch)
        e
      ≡ pursue codec now work saves n
          (Thread.executing epoch)
          (stepped now work epoch r.step_index s r e)
unfolding advance execute await_decisions run_step step_saved merge_step_success merge_cleared
    merge_saved stepped
turn codec now work saves n epoch e r s live cur more at given =
    let next = pursue-next codec now work saves in
    let i = r.step_index in
    let r' = stepping_run now (s.phase) r in
    let e1 : Engine = record e { current = some r' } in
    let e2 : Engine = record e { current = some (stepped_run now work i s r) } in
    next _ (Thread.executing epoch) (Thread.checking epoch i s) e e (rw (live, cur, more, at) refl)
      (ground (arith, live, cur, more, at))
    ∙ next _ (Thread.checking epoch i s) (Thread.step_beginning epoch i s) e e
        (rw (live, cur, given) refl) (rw (live, cur, given) refl)
    ∙ next _ (Thread.step_beginning epoch i s) (Thread.step_saving epoch i s r') e e1
        (rw (live, cur) refl) (rw (live, cur) refl)
    ∙ next _ (Thread.step_saving epoch i s r') (Thread.stepping epoch i s r') e1 e1 refl refl
    ∙ next _ (Thread.stepping epoch i s r') (Thread.merging epoch i s (work s r')) e1 e1 refl refl
    ∙ next _ (Thread.merging epoch i s (work s r')) (Thread.merge_clearing epoch i s r.id) e1 e2
        (rw live refl) (rw live refl)
    ∙ next _ (Thread.merge_clearing epoch i s r.id) (Thread.merge_saving epoch i s r.id) e2
        (stepped now work epoch i s r e) refl refl
    ∙ next _ (Thread.merge_saving epoch i s r.id) (Thread.executing epoch)
        (stepped now work epoch i s r e) (stepped now work epoch i s r e) refl refl

-- The engine after the last step of the recipe.
unfoldable concluded : ℕ → ℕ → Run → Engine → Engine
unfolding clear_active_action
concluded now epoch r e = close_done epoch (
    clear_active_action epoch
      (record e { current = some (finished_run now (terminal_state e.steps) "" r) }))

pursue-last :
    (codec : Codec) (now : ℕ) (work : Step → Run → Run) (saves : ℕ → Bool) (n : ℕ) (t : Thread)
    (e e' : Engine)
    → (advance codec now (kind_answer work (saves n) t) t e).next ≡ none
    → (advance codec now (kind_answer work (saves n) t) t e).engine ≡ e'
    → pursue codec now work saves (suc n) t e ≡ (e', none)
unfolding pursue
pursue-last codec now work saves n t e e' h g =
    let m = advance codec now (kind_answer work (saves n) t) t e in
    ap (λ o. carry_on (λ u. pursue codec now work saves n u m.engine) o m.engine) h
    ∙ ap (λ x. (x, none)) g

last_turn :
    (codec : Codec) (now : ℕ) (work : Step → Run → Run) (saves : ℕ → Bool) (n epoch : ℕ)
    (e : Engine) (r : Run)
    → alive e epoch ≡ true
    → e.current ≡ some r
    → leb (length e.steps) r.step_index ≡ true
    → pursue codec now work saves (suc (suc (suc (suc n)))) (Thread.executing epoch) e
      ≡ (concluded now epoch r e, none)
unfolding advance execute finish finish_cleared finish_saved concluded
last_turn codec now work saves n epoch e r live cur over =
    let next = pursue-next codec now work saves in
    let end = terminal_state e.steps in
    let e1 : Engine = record e { current = some (finished_run now end "" r) } in
    let e2 = clear_active_action epoch e1 in
    next _ (Thread.executing epoch) (Thread.finishing epoch end "" After.goroutine_ends) e e
      (rw (live, cur, over) refl) (ground (arith, live, cur, over))
    ∙ next _ (Thread.finishing epoch end "" After.goroutine_ends)
        (Thread.finish_clearing epoch r.id end After.goroutine_ends) e e1 (rw (cur, live) refl)
        (rw (cur, live) refl)
    ∙ next _ (Thread.finish_clearing epoch r.id end After.goroutine_ends)
        (Thread.finish_saving epoch r.id end After.goroutine_ends) e1 e2 refl refl
    ∙ pursue-last codec now work saves _ (Thread.finish_saving epoch r.id end After.goroutine_ends)
        e2 _ refl refl

-- What is answered stays answered.
missing-assign :
    (keys : List String) (k v : String) (m : List (String × String))
    → missing keys m ≡ []
    → missing keys (assign k v m) ≡ []
unfolding missing
missing-assign [] k v m h = refl
missing-assign (j ∷ keys) k v m h = elim (Bool-cases (has_key j m)) [
  | inl q ↦ rw (find-assign k j v m) (ground (arith, h, q, missing-assign keys k v m))
  | inr q ↦ absurd (ground (arith, h, q))
]

missing-assign_all :
    (keys : List String) (ds m : List (String × String))
    → missing keys m ≡ []
    → missing keys (assign_all ds m) ≡ []
unfolding assign_all
missing-assign_all keys [] m h = h
missing-assign_all keys ((k, v) ∷ ds) m h =
    missing-assign_all keys ds (assign k v m) (missing-assign keys k v m h)

-- The step that stands at `i`, with what holds of each step.
step_at-found :
    (P : Step → Type 0) (i : ℕ) (steps : List Step)
    → All P steps
    → leb (length steps) i ≡ false
    → (s : Step) × (step_at i steps ≡ some s) × P s
unfolding step_at
step_at-found P i [] ps h = absurd (ground (arith, h))
step_at-found P zero (s ∷ steps) ps h = (s, refl, ps.0)
step_at-found P (suc i) (s ∷ steps) ps h = step_at-found P i steps ps.1 (ground (arith, h))

-- The moves for `k` steps of a recipe, and `n` more.
unfoldable moves_for : ℕ → ℕ → ℕ
moves_for zero n = suc (suc (suc (suc n)))
moves_for (suc k) n = suc (suc (suc (suc (suc (suc (suc (suc (moves_for k n))))))))

moves_for-eq : (k n : ℕ) → moves_for k n ≡ 8 * k + 4 + n
unfolding moves_for
moves_for-eq zero n = omega arith
moves_for-eq (suc k) n = omega (arith, moves_for-eq k n)

-- The run is over as its recipe has it, and its goroutine is gone.
pub record IsOver (epoch : ℕ) (id : String) (steps : List Step) (left : Engine × Option Thread)
    : Type 0 where
  pub gone : left.1 ≡ none
  pub closed : contains epoch left.0.closed ≡ true
  pub last :
      (r' : Run) × (left.0.current ≡ some r')
      × (r'.state ≡ terminal_state steps)
      × (r'.err ≡ "")
      × (r'.id ≡ id)

last_turn-IsOver :
    (codec : Codec) (now : ℕ) (work : Step → Run → Run) (saves : ℕ → Bool) (n epoch : ℕ)
    (e : Engine) (r : Run)
    → alive e epoch ≡ true
    → e.current ≡ some r
    → leb (length e.steps) r.step_index ≡ true
    → IsOver epoch r.id e.steps
        (pursue codec now work saves (suc (suc (suc (suc n)))) (Thread.executing epoch) e)
unfolding concluded
last_turn-IsOver codec now work saves n epoch e r live cur over =
    subst (IsOver epoch r.id e.steps)
      (sym (last_turn codec now work saves n epoch e r live cur over))
      (record {
        gone = refl;
        closed = ground arith;
        last = (finished_run now (terminal_state e.steps) "" r, rw live refl, refl, refl, refl);
      })

stepped-fields :
    (now : ℕ) (work : Step → Run → Run) (epoch i : ℕ) (s : Step) (r : Run) (e : Engine)
    → ((stepped now work epoch i s r e).steps ≡ e.steps)
      × ((stepped now work epoch i s r e).epoch ≡ e.epoch)
      × ((stepped now work epoch i s r e).current ≡ some (stepped_run now work i s r))
unfolding stepped
stepped-fields now work epoch i s r e = ground arith

stepped_run-fields :
    (now : ℕ) (work : Step → Run → Run) (i : ℕ) (s : Step) (r : Run)
    → ((stepped_run now work i s r).step_index ≡ suc i) × ((stepped_run now work i s r).id ≡ r.id)
unfolding merged_run
stepped_run-fields now work i s r = (refl, refl)

stepped_run-given :
    (now : ℕ) (work : Step → Run → Run) (i : ℕ) (s : Step) (r : Run) (steps : List Step)
    → All (λ u. missing u.requires r.decisions ≡ []) steps
    → All (λ u. missing u.requires (stepped_run now work i s r).decisions ≡ []) steps
unfolding merged_run
stepped_run-given now work i s r [] given = tt
stepped_run-given now work i s r (u ∷ steps) given = (
  missing-assign_all u.requires (work s (stepping_run now (s.phase) r)).decisions r.decisions
      given.0,
  stepped_run-given now work i s r steps given.1,
)

pursue-IsOver :
    (codec : Codec) (now : ℕ) (work : Step → Run → Run) (saves : ℕ → Bool) (k n epoch : ℕ)
    (e : Engine) (r : Run)
    → alive e epoch ≡ true
    → e.current ≡ some r
    → All (λ s. missing s.requires r.decisions ≡ []) e.steps
    → length e.steps ≤ k + r.step_index
    → IsOver epoch r.id e.steps
        (pursue codec now work saves (moves_for k n) (Thread.executing epoch) e)
unfolding moves_for
pursue-IsOver codec now work saves zero n epoch e r live cur given h =
    last_turn-IsOver codec now work saves n epoch e r live cur (ground (arith, h))
pursue-IsOver codec now work saves (suc k) n epoch e r live cur given h =
    elim (Bool-cases (leb (length e.steps) r.step_index)) [
      | inl q ↦ last_turn-IsOver codec now work saves _ epoch e r live cur q
      | inr q ↦
          let i = r.step_index in
          let (s, at, there) =
            step_at-found (λ s. missing s.requires r.decisions ≡ []) i e.steps given q in
          let e' = stepped now work epoch i s r e in
          let r' = stepped_run now work i s r in
          let f = stepped-fields now work epoch i s r e in
          let g = stepped_run-fields now work i s r in
          let rest = pursue codec now work saves (moves_for k n) (Thread.executing epoch) e' in
          let given' =
            subst (λ steps. All (λ u. missing u.requires r'.decisions ≡ []) steps) (sym f.0)
              (stepped_run-given now work i s r e.steps given) in
          let shorter : length e'.steps ≤ k + r'.step_index =
            omega (arith, h, g.0, ap length f.0) in
          let over =
            pursue-IsOver codec now work saves k n epoch e' r' (ground (arith, f.1, live)) f.2
              given' shorter in
          subst (IsOver epoch r.id e.steps)
            (sym (turn codec now work saves (moves_for k n) epoch e r s live cur q at there))
            (subst (λ id. IsOver epoch id e.steps rest) g.1
              (subst (λ steps. IsOver epoch r'.id steps rest) f.0 over))
    ]

-- A goroutine whose steps all return, in whatever way they leave their scratch copy, and which waits for
-- no decision, ends after at most 8 moves for each step that is left and 4 more, whether its saves
-- succeed or fail: the run is then done, or active when the last step leaves its workload running, its
-- error is empty, and its channel is closed.
pub kind_goroutine_ends :
    (codec : Codec) (now : ℕ) (work : Step → Run → Run) (saves : ℕ → Bool) (fuel epoch : ℕ)
    (e : Engine) (r : Run)
    → alive e epoch ≡ true
    → e.current ≡ some r
    → All (λ s. missing s.requires r.decisions ≡ []) e.steps
    → 8 * (length e.steps - r.step_index) + 4 ≤ fuel
    → IsOver epoch r.id e.steps (pursue codec now work saves fuel (Thread.executing epoch) e)
kind_goroutine_ends codec now work saves fuel epoch e r live cur given h =
    let k = length e.steps - r.step_index in
    subst
      (λ n. IsOver epoch r.id e.steps (pursue codec now work saves n (Thread.executing epoch) e))
      (omega (arith, h, moves_for-eq k (fuel - (8 * k + 4))))
      (pursue-IsOver codec now work saves k (fuel - (8 * k + 4)) epoch e r live cur given
        (omega arith))
