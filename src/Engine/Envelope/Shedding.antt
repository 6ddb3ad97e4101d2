-- ===== src/Engine/Envelope/Shedding.antt =====
-- internal/engine/envelope.go: the loop that sheds artifacts.
use Prim.Native.String.{len}
use mathlib.Core.Option.{some-injective}
use aicrme.Prelude.{
  ℕ, zero, suc, ◌≤◌, ◌<◌, ◌≡◌, refl, sym, ◌∙◌, subst, String, str_eq, eq_iff, true, false, List, [],
  ◌∷◌, ◌++◌, none, some, arith, length, All, Bool-cases, Option-cases, inl, inr, has_key, find,
}
use aicrme.Engine.Store.{without_key}
use aicrme.Engine.Envelope.{
  Envelope, Packing, gzip_json, larger, largest_from, largest_artifact, shed_one, must_shed, shed,
}

-- The largest of the artifacts seen is no smaller than any of them, and one of them.
largest_from-bound :
    (best : String × String) (artifacts : List (String × String))
    → (len best.1 ≤ len (largest_from best artifacts).1)
      × All (λ a. len a.1 ≤ len (largest_from best artifacts).1) artifacts
unfolding largest_from
largest_from-bound best [] = (omega arith, tt)
largest_from-bound (best, w) ((k, v) ∷ artifacts) =
    let (first, rest) = largest_from-bound (larger (best, w) (k, v)) artifacts in
    (ground (arith, first), (ground (arith, first), rest))

largest_from-member :
    (best : String × String) (artifacts : List (String × String)) (k : String)
    → str_eq best.0 (largest_from best artifacts).0 ≡ false
    → has_key (largest_from best artifacts).0 artifacts ≡ true
unfolding largest_from find
largest_from-member (best, w) [] k h = ground (arith, eq_iff best best)
largest_from-member (best, w) ((j, v) ∷ artifacts) k h = ground (
  arith,
  eq_iff j (largest_from (larger (best, w) (j, v)) artifacts).0,
  largest_from-member (larger (best, w) (j, v)) artifacts k,
)

largest_artifact-member :
    (artifacts : List (String × String))
    → 0 < length artifacts
    → has_key (largest_artifact artifacts) artifacts ≡ true
unfolding largest_artifact find
largest_artifact-member [] h = absurd (omega arith)
largest_artifact-member (a ∷ artifacts) h = ground (arith, largest_from-member a artifacts "")

length-without_key :
    (k : String) (artifacts : List (String × String))
    → (length (without_key k artifacts) ≤ length artifacts)
      × (has_key k artifacts ≡ true → length (without_key k artifacts) < length artifacts)
unfolding without_key find
length-without_key k [] = ground arith
length-without_key k ((j, v) ∷ artifacts) = ground (arith, length-without_key k artifacts)

-- An envelope without the artifacts of these keys, which it says are missing.
abbrev pub drops : List String → Envelope → Envelope
drops [] env = env
drops (k ∷ keys) env =
    drops keys
      (record env { artifacts = without_key k env.artifacts; truncated = env.truncated ++ k ∷ [] })

shed_one_less :
    (env : Envelope)
    → 0 < length env.artifacts
    → length (shed_one env).artifacts < length env.artifacts
unfolding shed_one
shed_one_less env h =
    (length-without_key (largest_artifact env.artifacts) env.artifacts).1
      (largest_artifact-member env.artifacts h)

module _ (packing : Packing) (ceiling : ℕ) where
  shed_round :
      (fuel : ℕ) (env : Envelope) (blob blob' : String)
      → must_shed ceiling env blob ≡ true
      → gzip_json packing (shed_one env) ≡ some blob'
      → shed packing ceiling (suc fuel) env blob ≡ shed packing ceiling fuel (shed_one env) blob'
  unfolding shed
  shed_round fuel env blob blob' h p = ground arith

  shed_stuck :
      (fuel : ℕ) (env : Envelope) (blob : String)
      → must_shed ceiling env blob ≡ true
      → gzip_json packing (shed_one env) ≡ none
      → shed packing ceiling (suc fuel) env blob ≡ none
  unfolding shed
  shed_stuck fuel env blob h p = ground arith

  shed_over :
      (fuel : ℕ) (env : Envelope) (blob : String)
      → must_shed ceiling env blob ≡ false
      → shed packing ceiling fuel env blob ≡ some (env, blob)
  unfolding shed
  shed_over zero env blob h = refl
  shed_over (suc fuel) env blob h = ground arith

  -- What the loop leaves: an envelope that lacks what it names as missing, packed, with nothing left to
  -- shed or small enough.
  abbrev pub Left : Envelope → Envelope × String → Type 0
  Left env (env', blob') =
      (dropped : List String) × (env' ≡ drops dropped env)
      × (gzip_json packing env' ≡ some blob')
      × (must_shed ceiling env' blob' ≡ false)

  at_end :
      (env : Envelope) (blob : String)
      → length env.artifacts ≤ 0
      → must_shed ceiling env blob ≡ false
  at_end env blob h = ground arith

  -- As much fuel as there are artifacts is enough: the loop ends by its test.
  pub shed-Left :
      (fuel : ℕ) (env : Envelope) (blob : String) (last : Envelope × String)
      → length env.artifacts ≤ fuel
      → gzip_json packing env ≡ some blob
      → shed packing ceiling fuel env blob ≡ some last
      → Left env last
  unfolding shed
  shed-Left zero env blob last enough p e =
      subst (Left env) (some-injective (env, blob) last e) (([], refl, p, at_end env blob enough))
  shed-Left (suc fuel) env blob last enough p e = elim (Bool-cases (must_shed ceiling env blob)) [
    | inr q ↦
        subst (Left env)
          (some-injective (env, blob) last (sym (shed_over (suc fuel) env blob q) ∙ e))
          (([], refl, p, q))
    | inl q ↦ elim (Option-cases (gzip_json packing (shed_one env))) [
      | inl u ↦ absurd (ground (arith, sym (shed_stuck fuel env blob q u) ∙ e))
      | inr (blob', u) ↦
          let (keys, same, packed, over) =
            shed-Left fuel (shed_one env) blob' last (ground (arith, q, shed_one_less env)) u
              (sym (shed_round fuel env blob blob' q u) ∙ e) in
          (largest_artifact env.artifacts ∷ keys, same, packed, over)
    ]
  ]
