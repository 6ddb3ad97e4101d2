-- ===== src/Observer/Tracked.antt =====
-- internal/observer/observer.go: the maps from a resource to a map from reasons, as lists of a resource,
-- a reason and a value.
use aicrme.Prelude.{
  ◌≡◌, ◌↔◌, refl, ap, subst, ◌∙◌, String, str_eq, eq_iff, Bool, true, ◌&&◌, List, [], ◌∷◌, Option,
  none, some, arith, if◌then◌else◌,
}
use aicrme.Observer.Pods.{StateKey}

unfoldable pub key_eq : StateKey → StateKey → Bool
key_eq j k =
    str_eq j.kind k.kind
    && str_eq j.namespace k.namespace
    && str_eq j.name k.name
    && str_eq j.uid k.uid

abbrev pub Tracked {ℓ} : Type ℓ → Type ℓ
Tracked V = List (StateKey × String × V)

abbrev pub at_entry : StateKey → String → StateKey → String → Bool
at_entry j s k r = key_eq j k && str_eq s r

module _ {ℓ} {V : Type ℓ} where
  unfoldable pub tracked : StateKey → String → Tracked V → Option V
  tracked k r [] = none
  tracked k r ((j, s, v) ∷ m) = if at_entry j s k r then some v else tracked k r m

  -- `m[k][r] = v`
  unfoldable pub track : StateKey → String → V → Tracked V → Tracked V
  track k r v [] = (k, r, v) ∷ []
  track k r v ((j, s, w) ∷ m) =
      let rest = track k r v m in if at_entry j s k r then (k, r, v) ∷ m else (j, s, w) ∷ rest

  -- `m[k]`
  unfoldable pub of_resource : StateKey → Tracked V → List (String × V)
  of_resource k [] = []
  of_resource k ((j, s, v) ∷ m) =
      let rest = of_resource k m in if key_eq j k then (s, v) ∷ rest else rest

  -- `delete(m, k)`
  unfoldable pub drop_resource : StateKey → Tracked V → Tracked V
  drop_resource k [] = []
  drop_resource k ((j, s, v) ∷ m) =
      let rest = drop_resource k m in if key_eq j k then rest else (j, s, v) ∷ rest

  -- `delete(m[k], r)`
  unfoldable pub drop_reason : StateKey → String → Tracked V → Tracked V
  drop_reason k r [] = []
  drop_reason k r ((j, s, v) ∷ m) =
      let rest = drop_reason k r m in if at_entry j s k r then rest else (j, s, v) ∷ rest

key_eq_refl : (k : StateKey) → key_eq k k ≡ true
unfolding key_eq
key_eq_refl k = ground (
  arith,
  eq_iff k.kind k.kind,
  eq_iff k.namespace k.namespace,
  eq_iff k.name k.name,
  eq_iff k.uid k.uid,
)

abbrev key_of : String → String → String → String → StateKey
key_of kind namespace name uid = record {
  kind = kind;
  namespace = namespace;
  name = name;
  uid = uid;
}

pub key_eq_iff : (j k : StateKey) → (key_eq j k ≡ true) ↔ (j ≡ k)
unfolding key_eq
key_eq_iff j k = (
  λ h.
      let same : (j.kind ≡ k.kind)
          × (j.namespace ≡ k.namespace)
          × (j.name ≡ k.name)
          × (j.uid ≡ k.uid) =
        ground (
          arith,
          eq_iff j.kind k.kind,
          eq_iff j.namespace k.namespace,
          eq_iff j.name k.name,
          eq_iff j.uid k.uid,
          h,
        ) in
      ap (λ a. key_of a j.namespace j.name j.uid) same.0
      ∙ ap (λ a. key_of k.kind a j.name j.uid) same.1
      ∙ ap (λ a. key_of k.kind k.namespace a j.uid) same.2
      ∙ ap (λ a. key_of k.kind k.namespace k.name a) same.3,
  λ e. subst (λ l. key_eq j l ≡ true) e (key_eq_refl j),
)

module _ {ℓ} {V : Type ℓ} where
  pub tracked-track :
      (j k : StateKey) (s r : String) (v : V) (m : Tracked V)
      → tracked k r (track j s v m) ≡ (if at_entry j s k r then some v else tracked k r m)
  unfolding tracked track
  tracked-track j k s r v [] = refl
  tracked-track j k s r v ((i, t, w) ∷ m) = ground (
    arith,
    key_eq_iff j k,
    key_eq_iff i j,
    key_eq_iff i k,
    eq_iff s r,
    eq_iff t s,
    eq_iff t r,
    tracked-track j k s r v m,
  )

  pub tracked-drop_resource :
      (j k : StateKey) (r : String) (m : Tracked V)
      → tracked k r (drop_resource j m) ≡ (if key_eq j k then none else tracked k r m)
  unfolding tracked drop_resource
  tracked-drop_resource j k r [] = ground arith
  tracked-drop_resource j k r ((i, t, w) ∷ m) =
      ground (arith, key_eq_iff j k, key_eq_iff i j, key_eq_iff i k, tracked-drop_resource j k r m)
