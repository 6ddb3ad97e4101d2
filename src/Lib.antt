-- ===== src/Lib.antt =====
-- aicrme installs an AICR recipe on a Kubernetes cluster from a console: one run at a time goes through
-- a list of steps, waits for decisions of the operator, is saved as it goes, can be retried, stopped,
-- discarded and reset, and tells a browser what happens over a hub of events.
--
-- The parts, and the files of this library that model them:
--
-- - Bus/Hub, Bus/Event: internal/bus/bus.go and event.go. The hub is the record `Hub`; `publish`,
--   `retain`, `since` and `subscribe` are the methods of `Bus`, each whole under the hub's mutex. A
--   subscriber's channel is a queue with a size. Bus/Hub/Ring, History and Replay hold the proofs.
-- - Bus/Cluster: internal/bus/cluster.go, `Supersedes`.
-- - Observer/Debounce: internal/observer/debounce.go. `submit`, `release` and `stop` are the methods of
--   the debouncer, and what they emit is returned. A timer may fire at any time for any key.
-- - Observer/Pods, Events, Tracked, Conditions: internal/observer/pods.go, events.go and, for `onDelete`,
--   handlers.go. A section of a handler under the mutex takes the maps of the observer and returns
--   them with what is narrated of it; `onEventChange` has two, `event_noted` and `event_settled`.
--
--   Conditions/Sweep, Keeping, Recovery and Expiry hold the proofs.
-- - Observer/Workloads: the other handlers of internal/observer/handlers.go.
-- - Engine/Run: internal/engine/run.go and workload.go, the record of a run.
-- - Engine/State: the fields of `Engine` in internal/engine/engine.go, and `Thread`, where a goroutine
--   of the engine stands between two of its sections.
-- - Engine/Calls, Execute, Outcome, Finish: engine.go and attribution.go. One function for each section
--   between `e.mu.Lock` and `e.mu.Unlock` and for each return of a call made without the lock: `start`
--   and `start_saved` for `Start`, `await_decisions`, `await_saved`, `resumed` and `await_canceled` for
--   `awaitDecisions`, and so on with the name of the Go function first.
-- - Engine/Teardown, Report: `Stop` of engine.go and internal/engine/reset.go.
-- - Engine/Recover: internal/engine/recover.go. Engine/Reconcile: internal/engine/reconcile.go.
-- - Engine/Store: the in-memory store of internal/engine/store.go.
-- - Engine/Envelope: internal/engine/envelope.go, the record that a store writes. `encode_run` and
--   `decode_run` are `encodeRun` and `decodeRun`, `shed` is the loop that drops artifacts.
-- - Engine/FileStore: internal/engine/filestore.go, over the envelope, with `filepath.Join` as a
--   parameter and a file system that tells names apart by their characters. Engine/FileStore/Refines
--   compares it with the store in memory.
-- - Steps/Ownership, Steps/Apply: internal/steps/ownership.go and apply.go, the evidence that is taken
--   before an install, and what the step does before it calls the applier. Steps/Bundle: the check of
--   internal/steps/bundle.go that the recipe is the approved one; Steps/Bundle/Approved has the proof.
-- - Teardown/Purge, Releases, Adapter: internal/teardown/purge.go, teardown.go and adapter.go. A command
--   is counted and kept as its arguments; Order, Ours, Complete, Cancel and Evidence hold the proofs.
-- - Engine/World: all of the engine at one time. A schedule is a list of actions: a call comes in, one of
--   the goroutines takes a step with some answer of its environment, or `CancelAndWait` cancels. The
--   answers stand for the store, the cluster, the teardown client and the steps, and may be failures.
--   World/Progress lets one goroutine of a run go by itself, and World/ResetEnd the one of a reset,
--   with the store in memory.
-- - Gap/Probe, Counts, Rules, Report: internal/gap/rules.go and gap.go. A measurement is the record of
--   what its methods answer. Gap/Evidence holds the proofs.
-- - Observer/Scoped: internal/observer/scoped.go with the sweeps of observer.go, which namespaces are
--   watched and what is forgotten when one is left; over Observer/Conditions. Watching, Sweeps and
--   Stranded hold the proofs.
-- - Applier/Lines, Tail: the line writer and the ring of internal/applier/exec.go. Applier/Matcher,
--   Parse: internal/applier/parse.go, whose regular expressions are rows of items of a small matcher.
--   Applier/Apply: internal/applier/applier.go over these.
-- - Clear/Universe: internal/aicrclient/universe.go. Clear/Command, Charts, Listing, Recommend, Survey:
--   internal/clear, the survey of a cluster; a command is its arguments and answers with its output.
--   Keys, Longest, Pages, Suggested, Reading and Verdicts hold the proofs.
-- - Console/Lock: internal/console/lock.go, the lock of a work directory. Console/Lock/Exclusion holds the
--   proof.
-- - Prelude: lists, maps and tests on native numbers. Prelude/Ring: a circular buffer against the list of
--   what it holds, for Bus/Hub and Applier/Tail. Examples: the theorems at concrete inputs.
--
-- Go's maps are association lists, times are numbers of nanoseconds with 0 for the zero time, byte
-- slices are strings, and lists of bytes in Applier. Event numbers, epochs and generations are numbers modulo 2 ^ 64; the theorems on
-- them bound the number of events or actions by what is left before the counter wraps. The load
-- with retry counts its three attempts, the ring's loops count its entries. The loop that sheds
-- artifacts runs on as much fuel as there are artifacts, which is enough since each round drops one. The
-- listing of helm's releases takes any fuel; one round more than there are full pages is enough.
-- `encoding/json` and the printing of numbers are the record `Codec`, the calls of JSON and gzip that
-- the envelope makes are the record `Packing`, what helm and the API server list is the record `Cluster`, all of them parameters.
--
-- The process that the applier starts, the reading of its bytes as characters, and the decoders of what
-- helm prints (the record `Formats`) are parameters as well.
--
-- A command of the survey answers the same whenever it is asked within it; Go's quotation marks in the texts
-- of errors are left out.
--
-- Not modelled: the informers of the observer, the steps but for what is said of Apply and Bundle, the processes
-- that are started and the signals to them, the HTTP layer, the connection to a cluster and the terminal commands; logging, the texts
-- of the observer's narrations, the writing of a file by a rename, and the wait of `CancelAndWait` after
-- its cancellation.
pub mod Prelude
pub mod Bus
pub mod Observer
pub mod Engine
pub mod Steps
pub mod Teardown
pub mod Gap
pub mod Applier
pub mod Clear
pub mod Console
pub mod Examples
