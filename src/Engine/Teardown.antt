-- ===== src/Engine/Teardown.antt =====
-- internal/engine: `Stop` of engine.go and the teardown of reset.go, in their sections under the lock.
pub mod Residues
pub mod Verdict
pub mod Unsaved
use aicrme.Prelude.{
  ℕ, ◌+◌, String, str_append, str_eq, Bool, true, false, not, ◌&&◌, ◌||◌, List, [], ◌∷◌, ◌++◌,
  Option, none, some, if◌then◌else◌, length,
}
use aicrme.Bus.Event.{Kind, Level}
use aicrme.Engine.Run.{
  Run, resetting, failed, done, unset, Ownership, NamespaceRef, AgentNamespace, ItemKind,
  ResidueItem, Residue, Workload, no_residue, is_live, same_kind, stoppable,
}
use aicrme.Engine.Refusal.{Refusal}
use aicrme.Engine.Codec.{Codec}
use aicrme.Engine.Report.{reset_summary, summary_event, residue_events}
use aicrme.Engine.State.{
  Engine, Thread, After, Moved, moved, ended, publishing, Answer, refused, accepted, event, bump,
  alive, is_current, contains, close_done,
}

-- `e.proveClient != nil && e.proveClient.Ready()`
abbrev pub client_ready : Option Bool → Bool
client_ready none = false
client_ready (some ready) = ready

stop_current : String → Engine → Option Run → Answer
unfolding stoppable
stop_current id e none = refused Refusal.run_not_found
stop_current id e (some r) =
    if not (str_eq r.id id)
    then refused Refusal.run_not_found
    else if not (stoppable r)
    then refused Refusal.no_active_workload
    else if not (client_ready e.prove_client)
    then refused Refusal.no_cluster_client
    else accepted e (Thread.stop_waiting e.epoch id)

unfoldable pub stop : String → Engine → Answer
unfolding stop_current
stop id e = if e.draining then refused Refusal.draining else stop_current id e e.current

-- `EnsureAbsent` has answered; only a confirmed absence goes on.
unfoldable pub stop_absent : Bool → ℕ → String → Engine → Moved
stop_absent true epoch id e = moved e (Thread.stop_recording epoch id)
stop_absent false epoch id e = ended e

-- `prove.Namespace` and `prove.WorkloadName` of internal/prove/manifest.go.
abbrev pub stopped_workload : String → Workload
stopped_workload id = record {
  namespace = "aicrme-prove";
  kind = "Job";
  name = str_append "prove-" id;
}

unfoldable pub stopped_run : String → Option Run → Option Run
stopped_run id none = none
stopped_run id (some r) =
    some (record r { workload = stopped_workload id; cleanup_unconfirmed = false })

unfoldable pub stop_recorded : ℕ → String → Engine → Moved
unfolding stopped_run
stop_recorded epoch id e =
    moved
      (if is_current id e.current && alive e epoch
        then record e { current = stopped_run id e.current }
        else e)
      (Thread.finishing epoch done "" After.stop_returns)

unfoldable pub stop_ended : Engine → Moved
stop_ended e = ended (record e { recovered_pending = false })

abbrev pub is_empty {ℓ} : {A : Type ℓ} → List A → Bool
is_empty [] = true
is_empty (x ∷ xs) = false

abbrev pub foreign_run : Engine → Run → Bool
foreign_run e r =
    not (str_eq e.cluster_uid "")
    && not (str_eq r.cluster_uid "")
    && not (str_eq r.cluster_uid e.cluster_uid)

-- The guards of `Reset` on the run that is there.
unfoldable pub reset_blocked : String → Engine → Option Run → Option Refusal
reset_blocked id e none = some Refusal.run_not_found
reset_blocked id e (some r) =
    if not (str_eq r.id id)
    then some Refusal.run_not_found
    else if foreign_run e r
    then some Refusal.cluster_mismatch
    else if is_live r.state
    then some Refusal.run_is_live
    else if is_empty r.components
    then some Refusal.nothing_installed
    else if not (client_ready e.prove_client)
    then some Refusal.no_cluster_client
    else if not e.teardown
    then some Refusal.no_teardown
    else none

unfoldable pub reset_refusal : String → Engine → Option Refusal
unfolding reset_blocked
reset_refusal id e = if e.draining then some Refusal.draining else reset_blocked id e e.current

unfoldable pub resetting_run : ℕ → Option Run → Option Run
resetting_run now none = none
resetting_run now (some r) =
    some (record r { state = resetting; err = ""; residue = no_residue; updated_at = now })

unfoldable pub reset : ℕ → String → Engine → Answer
reset now id e = elim (reset_refusal id e) [
  | some x ↦ refused x
  | none ↦
      accepted
        (record e {
          current = resetting_run now e.current;
          epoch = bump e.epoch;
          cancel = some (bump e.epoch);
        })
        (Thread.reset_saving (bump e.epoch) id)
]

unfoldable pub reset_unsaved : ℕ → Option Run → Option Run
reset_unsaved now none = none
reset_unsaved now (some r) = some (record r { state = failed; updated_at = now })

-- A failed save leaves the run failed, without removing anything.
unfoldable pub reset_saved : Bool → ℕ → ℕ → String → Engine → Moved
unfolding reset_unsaved
reset_saved true now epoch id e =
    publishing
      (event Kind.phase Level.warn id unset "run resetting"
        ∷ event Kind.log Level.warn id unset
            "resetting: stopping the workload, then removing what this run installed"
        ∷ [])
      (moved e (Thread.reset_reading epoch id))
reset_saved false now epoch id e = ended (
    close_done epoch (
      if is_current id e.current && alive e epoch
      then record e { current = reset_unsaved now e.current }
      else e))

-- `snapshotRun`
unfoldable pub snapshot_run : ℕ → String → Engine → Option Run
snapshot_run epoch id e = if alive e epoch && is_current id e.current then e.current else none

unfoldable pub reset_read : ℕ → String → Engine → Moved
unfolding snapshot_run
reset_read epoch id e = elim (snapshot_run epoch id e) [
  | none ↦ ended (close_done epoch e)
  | some r ↦ moved e (Thread.reset_stopping epoch id r)
]

-- `EnsureAbsent` has answered, with `none` for no error: without a confirmed absence nothing is
-- removed.
unfoldable pub reset_absent : Codec → Option String → ℕ → String → Run → Engine → Moved
reset_absent codec none epoch id run e =
    publishing
      (event Kind.log Level.info id unset (
          str_append "workload confirmed stopped; removing "
            (str_append (codec.decimal (length run.components)) " releases"))
        ∷ [])
      (moved e (Thread.reset_removing epoch id run))
reset_absent codec (some err) epoch id run e = moved e (
    Thread.reset_recording epoch id [] true (
      some (
        str_append
          "reset stopped before removing anything: the reference workload could not be confirmed stopped: "
          err)))

unfoldable pub names_namespace : List ResidueItem → String → Bool
names_namespace [] name = false
names_namespace (it ∷ items) name =
    (same_kind it.kind ItemKind.namespace && str_eq it.name name) || names_namespace items name

abbrev pub namespace_item : String → String → Bool → ResidueItem
namespace_item name skip created = record {
  kind = ItemKind.namespace;
  name = name;
  namespace = "";
  removed = false;
  skip = skip;
  created = created;
  err = "";
}

unfoldable pub recorded_namespaces : List NamespaceRef → List ResidueItem
recorded_namespaces [] = []
recorded_namespaces (ns ∷ rest) =
    namespace_item ns.name
      (if ns.existed
        then "it existed before the install, so it was used rather than created"
        else "this run created it; remove it when you no longer need it")
      (not ns.existed)
    ∷ recorded_namespaces rest

unfoldable pub namespace_residue : Ownership → AgentNamespace → String → List ResidueItem
unfolding recorded_namespaces names_namespace
namespace_residue own agent validation =
    let out = recorded_namespaces own.namespaces in
    let out' =
      if not (str_eq validation "") && not (names_namespace out validation)
      then out
        ++ namespace_item validation
            "AICR's validator created it; its Jobs and RBAC are already cleaned up, but the namespace remains"
            true
          ∷ []
      else out in
    if agent.created && not (str_eq agent.name "") && not (names_namespace out' agent.name)
    then out'
      ++ namespace_item agent.name
          "this run created it for the snapshot agent; remove it when you no longer need it" true
        ∷ []
    else out'

unfoldable pub any_error : List ResidueItem → Bool
any_error [] = false
any_error (it ∷ items) = not (str_eq it.err "") || any_error items

-- `Releases` has returned `items`; the goroutine's context may have been canceled meanwhile. Every item
-- is announced, those of the releases while the teardown runs.
unfoldable pub reset_removed : Codec → List ResidueItem → ℕ → String → Run → Engine → Moved
unfolding namespace_residue any_error residue_events
reset_removed codec items epoch id run e =
    let all =
      items ++ namespace_residue run.ownership run.agent_namespace run.validation.namespace in
    publishing (residue_events codec id all) (
      moved e
        (Thread.reset_recording epoch id all (contains epoch e.canceled || any_error all) none))

unfoldable pub with_residue : ℕ → Residue → Option Run → Option Run
with_residue now res none = none
with_residue now res (some r) = some (record r { residue = res; updated_at = now })

-- `recordResidue`; an aborted teardown then finishes, another one reads the run again.
unfoldable pub record_residue :
    ℕ → ℕ → String → List ResidueItem → Bool → Option String → Engine → Moved
unfolding with_residue
record_residue now epoch id items incomplete abort e =
    moved
      (if alive e epoch && is_current id e.current
        then record e {
          current = with_residue now (record { incomplete = incomplete; items = items }) e.current;
        }
        else e)
      (elim abort [
        | some msg ↦ Thread.finishing epoch failed msg After.goroutine_ends
        | none ↦ Thread.reset_concluding epoch id incomplete
      ])

unfoldable pub reset_concluded : Codec → ℕ → String → Bool → Engine → Moved
unfolding snapshot_run reset_summary summary_event
reset_concluded codec epoch id incomplete e = elim (snapshot_run epoch id e) [
  | none ↦ ended (close_done epoch e)
  | some r ↦
      let summary = reset_summary codec r.residue in
      if incomplete
      then publishing (summary_event codec id Level.err summary r.residue ∷ [])
          (moved e (Thread.finishing epoch failed summary After.goroutine_ends))
      else publishing (summary_event codec id Level.info summary r.residue ∷ [])
          (moved e (Thread.finishing epoch done "" (After.record_deleted id)))
]

-- The outcome of the deletion is only logged.
unfoldable pub reset_deleted : ℕ → Engine → Moved
reset_deleted epoch e = moved e (Thread.reset_ending epoch)

unfoldable pub reset_ended : ℕ → Engine → Moved
reset_ended epoch e =
    ended (close_done epoch (if alive e epoch then record e { recovered_pending = false } else e))
