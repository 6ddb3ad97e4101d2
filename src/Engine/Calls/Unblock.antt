-- ===== src/Engine/Calls/Unblock.antt =====
-- internal/engine/engine.go: an accepted `Decide` lets the step go on that asked for it.
use aicrme.Prelude.{
  ℕ, String, eq_iff, true, false, List, [], ◌∷◌, none, some, arith, ◌≡◌, refl, subst, has_key,
  member, find, assign, assign_all, find-assign,
}
use aicrme.Engine.Run.{Run, is_awaiting}
use aicrme.Engine.State.{Engine, Step, Thread, accepted, alive}
use aicrme.Engine.Execute.{missing, check_step, check_keys, parked_run, await_decisions}
use aicrme.Engine.Calls.{decide, missing_key, decided}
use aicrme.Engine.Calls.Answers.{missing_key-none}

has_key-assign_all :
    (ds m : List (String × String)) (k : String)
    → (has_key k m ≡ true → has_key k (assign_all ds m) ≡ true)
      × (has_key k ds ≡ true → has_key k (assign_all ds m) ≡ true)
unfolding assign_all find
has_key-assign_all [] m k = ground arith
has_key-assign_all ((j, v) ∷ ds) m k =
    ground (arith, find-assign j k v m, has_key-assign_all ds (assign j v m) k)

missing-member :
    (keys : List String) (m : List (String × String)) (k : String)
    → member k keys ≡ true
    → has_key k m ≡ false
    → member k (missing keys m) ≡ true
unfolding missing
missing-member [] m k h q = ground arith
missing-member (j ∷ keys) m k h q = ground (arith, eq_iff j k, missing-member keys m k)

missing-none :
    (keys : List String) (m : List (String × String))
    → ((k : String) → member k keys ≡ true → has_key k m ≡ true)
    → missing keys m ≡ []
unfolding missing
missing-none [] m h = refl
missing-none (j ∷ keys) m h =
    ground (arith, eq_iff j j, h j, missing-none keys m (λ k q. h k (ground arith)))

-- What is missing is not missing once a submission that has all of it is taken over.
missing-decided :
    (now : ℕ) (keys : List String) (ds : List (String × String)) (r : Run)
    → missing_key (missing keys r.decisions) ds ≡ none
    → missing keys (decided now ds r).decisions ≡ []
unfolding decided
missing-decided now keys ds r h = missing-none keys (assign_all ds r.decisions) (λ k q. ground (
  arith,
  has_key-assign_all ds r.decisions k,
  missing-member keys r.decisions k,
  missing_key-none (missing keys r.decisions) ds h k,
))

decided_parked :
    (now later : ℕ) (s : Step) (keys : List String) (id : String) (ds : List (String × String))
    (e e' : Engine) (r : Run) (t : Thread)
    → decide later id ds (record e { current = some (parked_run now s keys r) }) ≡ accepted e' t
    → (missing_key keys ds ≡ none)
      × (e'.current ≡ some (decided later ds (parked_run now s keys r)))
      × (e'.epoch ≡ e.epoch)
unfolding decide
decided_parked now later s keys id ds e e' r t h = ground arith

begins :
    (last epoch i : ℕ) (s : Step) (e : Engine) (r : Run)
    → alive e epoch ≡ true
    → e.current ≡ some r
    → missing s.requires r.decisions ≡ []
    → (await_decisions last epoch i s e).next ≡ some (Thread.step_beginning epoch i s)
unfolding await_decisions check_step check_keys
begins last epoch i s e r h k q = ground arith

parks :
    (now epoch i : ℕ) (s : Step) (key : String) (keys : List String) (e : Engine) (r : Run)
    → alive e epoch ≡ true
    → e.current ≡ some r
    → missing s.requires r.decisions ≡ key ∷ keys
    → (await_decisions now epoch i s e).engine
      ≡ record e { current = some (parked_run now s (key ∷ keys) r) }
unfolding await_decisions check_step check_keys
parks now epoch i s key keys e r h k q = ground arith

stands :
    (now later epoch i : ℕ) (s : Step) (id : String) (ds : List (String × String)) (e e' : Engine)
    (r : Run) (t : Thread)
    → alive e epoch ≡ true
    → e.current ≡ some r
    → is_awaiting r.state ≡ false
    → missing s.requires r.decisions ≡ []
    → ¬ (decide later id ds (await_decisions now epoch i s e).engine ≡ accepted e' t)
unfolding await_decisions check_step check_keys decide
stands now later epoch i s id ds e e' r t h k l q m = ground arith

unblocked :
    (now later last epoch i : ℕ) (s : Step) (id : String) (ds : List (String × String))
    (e e' : Engine) (r : Run) (t : Thread)
    → alive e epoch ≡ true
    → e.current ≡ some r
    → is_awaiting r.state ≡ false
    → (keys : List String) → missing s.requires r.decisions ≡ keys
    → decide later id ds (await_decisions now epoch i s e).engine ≡ accepted e' t
    → (await_decisions last epoch i s e').next ≡ some (Thread.step_beginning epoch i s)
unblocked now later last epoch i s id ds e e' r t h k l [] q m =
    absurd (stands now later epoch i s id ds e e' r t h k l q m)
unblocked now later last epoch i s id ds e e' r t h k l (j ∷ keys) q m =
    let parked = parked_run now s (j ∷ keys) r in
    let p = decided_parked now later s (j ∷ keys) id ds e e' r t (
      subst (λ x. decide later id ds x ≡ accepted e' t) (parks now epoch i s j keys e r h k q) m) in
    begins last epoch i s e' (decided later ds parked) (ground arith) p.1
      (missing-decided later s.requires ds parked (rw q p.0))

-- After a run was parked before a step, and a `Decide` on it was accepted, the check before that step
-- finds every decision it requires, and the step begins.
pub decide-unblocks :
    (now later last epoch i : ℕ) (s : Step) (id : String) (ds : List (String × String))
    (e e' : Engine) (r : Run) (t : Thread)
    → alive e epoch ≡ true
    → e.current ≡ some r
    → is_awaiting r.state ≡ false
    → decide later id ds (await_decisions now epoch i s e).engine ≡ accepted e' t
    → (await_decisions last epoch i s e').next ≡ some (Thread.step_beginning epoch i s)
decide-unblocks now later last epoch i s id ds e e' r t h k l m =
    unblocked now later last epoch i s id ds e e' r t h k l (missing s.requires r.decisions) refl m
