-- ===== src/Engine/Teardown/Residues.antt =====
-- internal/engine/reset.go: what a teardown leaves on the record.
use aicrme.Prelude.{
  ◌≤◌, String, str_eq, eq_iff, Bool, true, false, not, List, [], ◌∷◌, ◌++◌, arith, ◌≡◌, refl, ◌||◌,
  ◌&&◌, if◌then◌else◌, All, Bool-cases, inl, inr,
}
use aicrme.Engine.Run.{
  ItemKind, ResidueItem, Ownership, NamespaceRef, AgentNamespace, removed, considered, same_kind,
}
use aicrme.Engine.Teardown.{
  names_namespace, recorded_namespaces, namespace_item, namespace_residue, any_error,
}

-- A namespace item is never deleted and never failed.
abbrev pub IsLeft : ResidueItem → Type 0
IsLeft it =
    (same_kind it.kind ItemKind.namespace ≡ true)
    × (it.removed ≡ false)
    × (it.err ≡ "")
    × (str_eq it.skip "" ≡ false)

reason-IsLeft :
    (name : String) (existed : Bool)
    → IsLeft (
        namespace_item name
          (if existed
            then "it existed before the install, so it was used rather than created"
            else "this run created it; remove it when you no longer need it")
          (not existed))
reason-IsLeft name true = (refl, refl, refl, refl)
reason-IsLeft name false = (refl, refl, refl, refl)

recorded_namespaces-IsLeft : (refs : List NamespaceRef) → All IsLeft (recorded_namespaces refs)
unfolding recorded_namespaces
recorded_namespaces-IsLeft [] = tt
recorded_namespaces-IsLeft (ns ∷ refs) =
    (reason-IsLeft ns.name ns.existed, recorded_namespaces-IsLeft refs)

All-snoc :
    (xs : List ResidueItem) (x : ResidueItem) → All IsLeft xs → IsLeft x → All IsLeft (xs ++ x ∷ [])
All-snoc [] x p q = (q, tt)
All-snoc (y ∷ xs) x p q = (p.0, All-snoc xs x p.1 q)

names_namespace-append :
    (xs ys : List ResidueItem) (name : String)
    → names_namespace (xs ++ ys) name ≡ (names_namespace xs name || names_namespace ys name)
unfolding names_namespace
names_namespace-append [] ys name = refl
names_namespace-append (x ∷ xs) ys name = ground (arith, names_namespace-append xs ys name)

-- Does one of the namespaces that the run has recorded have this name?
abbrev pub records : List NamespaceRef → String → Bool
records [] name = false
records (ns ∷ refs) name = str_eq ns.name name || records refs name

names_namespace-recorded :
    (refs : List NamespaceRef) (name : String)
    → names_namespace (recorded_namespaces refs) name ≡ records refs name
unfolding names_namespace recorded_namespaces
names_namespace-recorded [] name = refl
names_namespace-recorded (ns ∷ refs) name = ground (arith, names_namespace-recorded refs name)

listed : Bool → String → String → List ResidueItem → List ResidueItem
listed wanted name why out =
    if wanted && not (names_namespace out name)
    then out ++ namespace_item name why true ∷ []
    else out

listed-names :
    (wanted : Bool) (x why : String) (out : List ResidueItem) (name : String)
    → names_namespace (listed wanted x why out) name
      ≡ (names_namespace out name || (wanted && str_eq x name))
unfolding listed names_namespace
listed-names wanted x why out name =
    ground (arith, eq_iff x name, names_namespace-append out (namespace_item x why true ∷ []) name)

listed-IsLeft :
    (wanted : Bool) (x why : String) (out : List ResidueItem)
    → str_eq why "" ≡ false
    → All IsLeft out
    → All IsLeft (listed wanted x why out)
unfolding listed
listed-IsLeft wanted x why out h p = elim (Bool-cases (wanted && not (names_namespace out x))) [
  | inl q ↦ rw q (All-snoc out (namespace_item x why true) p (refl, refl, refl, h))
  | inr q ↦ rw q p
]

from_validator : String
from_validator =
    "AICR's validator created it; its Jobs and RBAC are already cleaned up, but the namespace remains"

from_agent : String
from_agent = "this run created it for the snapshot agent; remove it when you no longer need it"

namespace_residue-listed :
    (own : Ownership) (agent : AgentNamespace) (validation : String)
    → namespace_residue own agent validation
      ≡ listed (agent.created && not (str_eq agent.name "")) agent.name from_agent (
          listed
            (not (str_eq validation ""))
            validation
            from_validator
            (recorded_namespaces own.namespaces))
unfolding namespace_residue listed from_validator from_agent
namespace_residue-listed own agent validation = ground arith

-- The namespaces that a reset lists are those of the install, that of the validator and, where the run
-- created it, that of the snapshot agent, and no other.
pub namespace_residue-names :
    (own : Ownership) (agent : AgentNamespace) (validation name : String)
    → str_eq name "" ≡ false
    → names_namespace (namespace_residue own agent validation) name ≡ (
        records own.namespaces name
        || (str_eq validation name || (agent.created && str_eq agent.name name)))
namespace_residue-names own agent validation name h =
    let out = recorded_namespaces own.namespaces in
    let out' = listed (not (str_eq validation "")) validation from_validator out in
    ground (
      arith,
      namespace_residue-listed own agent validation,
      listed-names (agent.created && not (str_eq agent.name "")) agent.name from_agent out' name,
      listed-names (not (str_eq validation "")) validation from_validator out name,
      names_namespace-recorded own.namespaces name,
      eq_iff agent.name name,
      eq_iff validation name,
      eq_iff agent.name "",
      eq_iff validation "",
      eq_iff name "",
    )

-- A reset lists a namespace with the reason for which it stays, never as deleted and never as failed.
pub namespace_residue-IsLeft :
    (own : Ownership) (agent : AgentNamespace) (validation : String)
    → All IsLeft (namespace_residue own agent validation)
unfolding from_validator from_agent
namespace_residue-IsLeft own agent validation = rw (namespace_residue-listed own agent validation) (
    listed-IsLeft (agent.created && not (str_eq agent.name "")) agent.name from_agent _ refl (
      listed-IsLeft (not (str_eq validation "")) validation from_validator _ refl
        (recorded_namespaces-IsLeft own.namespaces)))

pub removed-considered :
    (kind : ItemKind) (items : List ResidueItem) → removed kind items ≤ considered kind items
unfolding removed considered
removed-considered kind [] = omega arith
removed-considered kind (it ∷ items) = ground (arith, removed-considered kind items)

pub any_error-append_left :
    (items left : List ResidueItem) → All IsLeft left → any_error (items ++ left) ≡ any_error items
unfolding any_error
any_error-append_left [] [] p = refl
any_error-append_left [] (it ∷ left) p =
    ground (arith, any_error-append_left [] left p.1, eq_iff it.err "", p.0)
any_error-append_left (x ∷ items) left p = ground (arith, any_error-append_left items left p)
