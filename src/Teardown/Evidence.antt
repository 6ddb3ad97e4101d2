-- ===== src/Teardown/Evidence.antt =====
-- internal/steps/ownership.go and internal/teardown: what was there before an install survives its
-- teardown.
use Prim.Native.Char.{Char}
use Prim.Native.String.append
use Prim.Native.String.compare
use aicrme.Prelude.{
  ◌≡◌, ◌≢◌, ◌∙◌, refl, String, str_append, str_eq, eq_iff, Bool, true, false, not, ◌&&◌, ◌||◌, List,
  [], ◌∷◌, ◌++◌, Option, none, some, arith, All, map, member,
}
use aicrme.Engine.Run.{ComponentState, Ownership, ReleaseRef, NamespaceRef}
use aicrme.Steps.Ownership.{
  Cluster, Listing, releases_listed, list_failed, Presence, present, absent, get_failed,
  insert_name, sort_names, compact, snapshot_present, snapshot_listed, snapshot_namespace,
  snapshot_each, snapshot_ownership, release_in,
}
use aicrme.Teardown.Purge.{Environment, at_start}
use aicrme.Teardown.Releases.{adopted, unprovable, uninstall_argv, releases}
use aicrme.Teardown.Ours.{is_ours, releases_spare}

member-insert_name :
    (a b : String) (names : List String)
    → member a (insert_name b names) ≡ (str_eq b a || member a names)
unfolding insert_name
member-insert_name a b [] = ground arith
member-insert_name a b (c ∷ names) = ground (arith, member-insert_name a b names)

member-sort_names :
    (a : String) (names : List String) → member a (sort_names names) ≡ member a names
unfolding sort_names
member-sort_names a [] = refl
member-sort_names a (b ∷ names) =
    ground (arith, member-insert_name a b (sort_names names), member-sort_names a names)

member-compact : (a : String) (names : List String) → member a (compact names) ≡ member a names
unfolding compact
member-compact a [] = refl
member-compact a (b ∷ []) = refl
member-compact a (b ∷ c ∷ names) = ground (arith, eq_iff b c, member-compact a (c ∷ names))

adopted-append :
    (xs ys : List ReleaseRef) (name namespace : String)
    → adopted (xs ++ ys) name namespace ≡ (adopted xs name namespace || adopted ys name namespace)
unfolding adopted
adopted-append [] ys name namespace = refl
adopted-append (x ∷ xs) ys name namespace = ground (arith, adopted-append xs ys name namespace)

adopted-map :
    (ns name : String) (names : List String)
    → adopted (map (release_in ns) names) name ns ≡ member name names
unfolding adopted
adopted-map ns name [] = refl
adopted-map ns name (a ∷ names) = ground (arith, eq_iff ns ns, adopted-map ns name names)

abbrev read_held : Presence → List String → String → Bool
read_held present names name = member name names
read_held absent names name = member name names
read_held (get_failed err) names name = true

abbrev listed_held : Cluster → String → Listing → String → Bool
listed_held cluster ns (list_failed err) name = true
listed_held cluster ns (releases_listed names) name = read_held (cluster.get ns) names name

-- May this release have been there before the install: was it seen, or could its namespace not be
-- looked at?
abbrev pub may_predate : Option Cluster → String → String → Bool
may_predate none ns name = true
may_predate (some cluster) ns name = listed_held cluster ns (cluster.list ns) name

-- Does the evidence on one namespace cover a release there?
covers : List String × NamespaceRef → String → String → Bool
covers (found, ref) ns name =
    str_eq ref.name ns && (not (str_eq ref.snapshot_err "") || member name found)

nonempty-append : (c : Char) (s t : String) → str_eq (str_append (String.◌∷◌ c s) t) "" ≡ false
nonempty-append c s t = rw (append.cons c s t, compare.cons-nil c (str_append s t)) refl

read_err : (err : String) → str_eq (str_append "reading the namespace failed: " err) "" ≡ false
read_err err = nonempty-append "r" "eading the namespace failed: " err

list_err : (err : String) → str_eq (str_append "listing helm releases failed: " err) "" ≡ false
list_err err = nonempty-append "l" "isting helm releases failed: " err

present-covers :
    (ns name : String) (names : List String) (x : Presence)
    → read_held x names name ≡ true
    → covers (snapshot_present ns (sort_names names) x) ns name ≡ true
unfolding covers snapshot_present
present-covers ns name names present h = ground (arith, eq_iff ns ns, member-sort_names name names)
present-covers ns name names absent h = ground (arith, eq_iff ns ns, member-sort_names name names)
present-covers ns name names (get_failed err) h = ground (arith, eq_iff ns ns, read_err err)

listed-covers :
    (cluster : Cluster) (ns name : String) (l : Listing)
    → listed_held cluster ns l name ≡ true
    → covers (snapshot_listed cluster ns l) ns name ≡ true
unfolding snapshot_listed covers
listed-covers cluster ns name (list_failed err) h = ground (arith, eq_iff ns ns, list_err err)
listed-covers cluster ns name (releases_listed names) h =
    present-covers ns name names (cluster.get ns) h

snapshot_namespace-covers :
    (cluster : Option Cluster) (ns name : String)
    → may_predate cluster ns name ≡ true
    → covers (snapshot_namespace cluster ns) ns name ≡ true
unfolding snapshot_namespace covers
snapshot_namespace-covers none ns name h = ground (arith, eq_iff ns ns)
snapshot_namespace-covers (some cluster) ns name h =
    listed-covers cluster ns name (cluster.list ns) h

Covered : Ownership → String → String → Type 0
Covered own ns name =
    (not (str_eq (unprovable own.namespaces ns) "") || adopted own.releases name ns) ≡ true

snapshot_each-Covered :
    (cluster : Option Cluster) (ns name : String) (names : List String)
    → member ns names ≡ true
    → may_predate cluster ns name ≡ true
    → Covered (snapshot_each cluster names) ns name
unfolding Covered snapshot_each unprovable covers
snapshot_each-Covered cluster ns name [] h m = ground arith
snapshot_each-Covered cluster ns name (a ∷ names) h m =
    let (found, ref) = snapshot_namespace cluster a in
    let rest = snapshot_each cluster names in
    ground (
      arith,
      eq_iff a ns,
      snapshot_namespace-covers cluster ns name m,
      snapshot_each-Covered cluster ns name names,
      adopted-append (map (release_in a) found) rest.releases name ns,
      adopted-map ns name found,
    )

Covered-spared :
    (own : Ownership) (ns name : String) → Covered own ns name → is_ours own name ns ≡ false
unfolding Covered
Covered-spared own ns name h = ground arith

-- A release that was seen in its namespace before the install, or whose namespace could not be looked
-- at, is never uninstalled by a teardown that works with the evidence taken then.
pub preexisting_spared :
    (cluster : Option Cluster) (namespaces : List String) (env : Environment) (timeout : String)
    (comps : List ComponentState) (d : ComponentState)
    → member d.namespace namespaces ≡ true
    → may_predate cluster d.namespace d.name ≡ true
    → All
        (λ argv. argv ≢ uninstall_argv timeout d)
        (releases env timeout comps (snapshot_ownership cluster namespaces) at_start).1.commands
unfolding snapshot_ownership
preexisting_spared cluster namespaces env timeout comps d h m =
    releases_spare env timeout comps (snapshot_each cluster (compact (sort_names namespaces))) d (
      Covered-spared _ d.namespace d.name (
        snapshot_each-Covered cluster d.namespace d.name (compact (sort_names namespaces))
          (member-compact d.namespace (sort_names namespaces)
            ∙ member-sort_names d.namespace namespaces
            ∙ h)
          m))
