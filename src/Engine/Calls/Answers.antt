-- ===== src/Engine/Calls/Answers.antt =====
-- internal/engine/engine.go: `Decide` and the keys that it asks for.
use aicrme.Prelude.{
  ℕ, String, eq_iff, true, false, List, [], ◌∷◌, Option, none, some, arith, ◌≡◌, refl, ◌↔◌, has_key,
  member, find, if◌then◌else◌, is_some,
}
use aicrme.Engine.Run.{Run, is_awaiting}
use aicrme.Engine.State.{Engine}
use aicrme.Engine.Calls.{decide, unrequested, missing_key}
use aicrme.Engine.Calls.Guards.{is_accepted}

unrequested-none :
    (pending : List String) (ds : List (String × String))
    → unrequested pending ds ≡ none
    → (k : String) → has_key k ds ≡ true
    → member k pending ≡ true
unfolding unrequested find
unrequested-none pending [] h k q = ground arith
unrequested-none pending ((j, v) ∷ ds) h k q =
    ground (arith, eq_iff j k, unrequested-none pending ds (ground arith) k)

unrequested-some :
    (pending : List String) (ds : List (String × String)) (k : String)
    → unrequested pending ds ≡ some k
    → (has_key k ds ≡ true) × (member k pending ≡ false)
unfolding unrequested find
unrequested-some pending [] k h = ground arith
unrequested-some pending ((j, v) ∷ ds) k h =
    ground (arith, eq_iff j k, unrequested-some pending ds k)

pub missing_key-none :
    (pending : List String) (ds : List (String × String))
    → missing_key pending ds ≡ none
    → (k : String) → member k pending ≡ true
    → has_key k ds ≡ true
unfolding missing_key
missing_key-none [] ds h k q = ground arith
missing_key-none (j ∷ pending) ds h k q =
    ground (arith, eq_iff j k, missing_key-none pending ds (ground arith) k)

missing_key-some :
    (pending : List String) (ds : List (String × String)) (k : String)
    → missing_key pending ds ≡ some k
    → (member k pending ≡ true) × (has_key k ds ≡ false)
unfolding missing_key
missing_key-some [] ds k h = ground arith
missing_key-some (j ∷ pending) ds k h = ground (arith, eq_iff j k, missing_key-some pending ds k)

module _ (now : ℕ) (id : String) (ds : List (String × String)) (e : Engine) (r : Run)
    (h : e.current ≡ some r) (k : r.id ≡ id) (l : is_awaiting r.state ≡ true) where
  Matches : Type 0
  Matches = (j : String) → member j r.pending ≡ has_key j ds

  accepted_when :
      (u m : Option String)
      → unrequested r.pending ds ≡ u
      → missing_key r.pending ds ≡ m
      → is_accepted (decide now id ds e)
        ≡ (if is_some u then false else if is_some m then false else true)
  unfolding decide
  accepted_when none none p q = ground (arith, eq_iff r.id id)
  accepted_when (some j) m p q = ground (arith, eq_iff r.id id)
  accepted_when none (some j) p q = ground (arith, eq_iff r.id id)

  accepted_iff :
      (u m : Option String)
      → unrequested r.pending ds ≡ u
      → missing_key r.pending ds ≡ m
      → (is_accepted (decide now id ds e) ≡ true) ↔ Matches
  unfolding Matches
  accepted_iff none none p q = (
    λ a j. ground (arith, unrequested-none r.pending ds p j, missing_key-none r.pending ds q j),
    λ a. accepted_when none none p q,
  )
  accepted_iff (some j) m p q = (
    λ a. absurd (ground (arith, a, accepted_when (some j) m p q)),
    λ a. absurd (ground (arith, a j, unrequested-some r.pending ds j p)),
  )
  accepted_iff none (some j) p q = (
    λ a. absurd (ground (arith, a, accepted_when none (some j) p q)),
    λ a. absurd (ground (arith, a j, missing_key-some r.pending ds j q)),
  )

-- On a run that waits for decisions and has the given identifier, `Decide` is accepted exactly when
-- the keys of the submission are the keys that the run waits for.
pub decide-accepts_iff :
    (now : ℕ) (id : String) (ds : List (String × String)) (e : Engine) (r : Run)
    → e.current ≡ some r
    → r.id ≡ id
    → is_awaiting r.state ≡ true
    → (is_accepted (decide now id ds e) ≡ true) ↔ ((j : String) → member j r.pending ≡ has_key j ds)
unfolding Matches
decide-accepts_iff now id ds e r h k l =
    accepted_iff now id ds e r h k l (unrequested r.pending ds) (missing_key r.pending ds) refl refl
