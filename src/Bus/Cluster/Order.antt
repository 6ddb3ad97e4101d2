-- ===== src/Bus/Cluster/Order.antt =====
-- Precedence between versions of one condition.
use aicrme.Prelude.{
  ℕ, ◌+◌, ◌*◌, ◌<◌, ◌≡◌, ◌⊎◌, ◌↔◌, Bool, true, false, eq_iff, arith, ◌∙◌, Bool-cases, inl, inr,
}
use aicrme.Bus.Cluster.{ClusterData, supersedes, rank}

-- The conditions of one resource and one reason: the pairs that `supersedes` compares at all.
abbrev pub SameCondition : ClusterData → ClusterData → Type 0
SameCondition d c = (d.uid ≡ c.uid) × (d.reason ≡ c.reason)

abbrev pub flag : Bool → ℕ
flag true = 1
flag false = 0

-- When `d` comes after `c`: by time, then by being resolved, then by severity.
abbrev pub Later : ClusterData → ClusterData → Type 0
Later d c =
    (c.at < d.at)
    ⊎ ((c.at ≡ d.at)
        × (flag c.resolved * 3 + rank c.severity < flag d.resolved * 3 + rank d.severity))

-- `supersedes` decides the lexicographic order on one condition, and never holds across two.
pub supersedes-iff_Later :
    (d c : ClusterData) → (supersedes d c ≡ true) ↔ (SameCondition d c × Later d c)
unfolding supersedes
supersedes-iff_Later d c = ground (arith, eq_iff d.uid c.uid, eq_iff d.reason c.reason)

Later-trans : (a b c : ClusterData) → Later a b → Later b c → Later a c
Later-trans a b c h k = omega arith

Later-asym : (a b : ClusterData) → Later a b → ¬ Later b a
Later-asym a b h k = omega arith

-- `supersedes` is transitive.
pub supersedes_trans :
    (a b c : ClusterData) → supersedes a b ≡ true → supersedes b c ≡ true → supersedes a c ≡ true
supersedes_trans a b c h k =
    let (s, l) = (supersedes-iff_Later a b).0 h in
    let (t, m) = (supersedes-iff_Later b c).0 k in
    (supersedes-iff_Later a c).1 ((s.0 ∙ t.0, s.1 ∙ t.1), Later-trans a b c l m)

-- Of two versions at most one supersedes the other.
pub supersedes-asym : (a b : ClusterData) → supersedes a b ≡ true → supersedes b a ≡ false
supersedes-asym a b h = elim (Bool-cases (supersedes b a)) [
  | inl k ↦
      absurd (Later-asym a b ((supersedes-iff_Later a b).0 h).1 ((supersedes-iff_Later b a).0 k).1)
  | inr k ↦ k
]
