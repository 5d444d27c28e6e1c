-- ===== src/Lib.antt =====
-- egressfox: proxies are collected from sources, probed, selected by their evidence, and published as
-- an engine configuration. This library models the parts that decide and that keep state, and
-- proves what makes them correct.
--
-- The parts and how they interact. Sources give endpoints (Endpoint); probes give observations
-- of a connection revision, whose summary is the evidence (Observation); Select takes candidates with
-- evidence and the committed state and returns a decision with the next state (Selection); a
-- reconciliation loads the evidence, selects, renders, stages the state, publishes, reads the receipt
-- back and commits (Reconcile); the file publisher replaces the target with a journal and a backup
-- (Publish). Around them are the retry loop of the HTTP source and the set of snapshots (Source) and the
-- profiles of a pool (Operator). The probes of a cycle run under a scheduler (Probe); the observations
-- and the decision checkpoints of the reconciliation live in a database (Store).
--
-- Files:
--   Base          shared names: Boolean tests, lists and integers over native numbers, Go's
--                 results, byte strings and their order, sorting.
--   Endpoint      internal/endpoint/identity.go: identities, revisions and their order.
--   Endpoint.Connection  internal/endpoint/configuration.go and advanced.go: a connection configuration
--                 and its validity (Configuration.valid), with Construction (NewConfiguration and its
--                 variants), Equivalence (Equivalent) and Encoding (canonicalConfiguration and
--                 Identity of identity.go).
--   Endpoint.Inventory  internal/endpoint/inventory.go and provenance.go: Deduplicate and the merging.
--   Artifact      internal/artifact/artifact.go: profiles and safe identifiers.
--   Artifact.Receipts  internal/artifact/artifact.go: NewCandidate, Validate, the generation and the
--                 receipts with MatchesProtectedReceipt.
--   Observation   internal/observation/model.go (New, the digest), with Keys (references and keys) and
--                 Summary (Summarize of internal/observation/summary.go).
--   Selection     internal/selection/selection.go: the types, Policy.Validate and State.Validate; the
--                 children are Confidence (wilsonLowerPPM, riskCost), Evaluate (evaluate), Rank
--                 (sortRanked, optimize) and Select (Select, its loops as functions of their own).
--   Selection.Replay  internal/selection/replay.go: Compare.
--   Reconcile     internal/reconcile/reconcile.go: the ports and the results; the children are Plan
--                 (plan), Apply (Apply) and Cycle (Reconciler.Reconcile).
--   Publish       internal/publish/file.go: recover, currentOwned, Publish and rollback.
--   Source.Retry  internal/source/retry.go: RetryFetch and Retryable.
--   Source.Snapshots  internal/source/snapshot.go: the set of snapshots.
--   Probe.Scheduler  internal/probe/scheduler.go: Run as the steps of the producer and of the workers.
--   Store         internal/state/sqlite.go: Ids (ParseID, RestoreRevision), Checkpoints (StageDecision,
--                 CommitDecision, RecoverDecision, with Payload and Decoding for the stored bytes),
--                 History (Append with prune, Load, Summarize, with Rows for the statements) and Cache
--                 (internal/state/source_cache.go).
--   Operator.Profiles  internal/operator/profiles.go: ResolveProfile.
--   Examples      the theorems at concrete inputs.
--
-- Conventions. A time is the number of nanoseconds since Go's zero time; a duration or a count that
-- the code checks for a sign is an integer until it is checked. Sorting is an insertion sort: it is
-- what any sort of distinct values returns, and where values compare equal the theorems say so. A
-- pointer that may be nil is an option, a map of reasons is a list of pairs in which the last one
-- counts. The loops are structural recursion, and the retry loop has the fixed number of its
-- attempts as fuel, so every function is total. int64 products and sums wrap where the code can
-- overflow; the other sums are exact because their values are bounded by Policy.Validate and the
-- admission of observations.
--
-- Parameters. Go's float64 and SHA-256 are the interface Platform of Selection.Confidence. What a
-- reconciliation calls (stores, publisher, renderer, checker, callbacks) is the interface Ports of
-- Reconcile: each answer may depend on the log of all calls before it, so nothing is assumed of
-- them. Encoding of Artifact.Receipts stands for JSON and SHA-256: data with ASCII strings is
-- unmarshalled as it was marshalled, and a digest has 32 bytes. Configurations of Endpoint.Inventory
-- stands for the validity and the equivalence of configurations. Json of Store.Checkpoints.Payload
-- stands for encoding/json on a checkpoint payload: one with ASCII strings is unmarshalled as it was
-- marshalled. A table of the database is the list of its rows and a statement is a function on it;
-- what the calls answer is given beforehand, and a transaction that fails or is not committed leaves
-- the rows as they were. In Probe.Scheduler a step is one operation on a channel, a semaphore or a
-- result, and the steps of the goroutines come in any order; what an execution answers is arbitrary.
-- In Publish the file system's answers are the record System, and a run is the sequence of disks
-- that it goes through: a crash leaves one of them.
--
-- Not modelled: the parsers of sources, the engines' renderers, the executor of probes, the
-- migration of the database, Count, the scheduler's statistics, Kubernetes clients, the constructors
-- of addresses, credentials, transports and options, and String, Format and JSON methods. A
-- configuration of the third version without advanced options is invalid and is given no encoding,
-- where the code would panic. A file that the publisher reads is readable and within its limit.
pub mod Base
pub mod Endpoint
pub mod Artifact
pub mod Observation
pub mod Selection
pub mod Reconcile
pub mod Publish
pub mod Store
pub mod Probe
pub mod Source
pub mod Operator
pub mod Examples
