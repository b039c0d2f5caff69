-- ===== src/Lib.antt =====
-- DiffDossier reviews a repository's changes: it takes a snapshot, plans review tasks, hands packets
-- to Providers, validates and compares their results, keeps a ledger of findings, authorizes fixes,
-- runs gates and reports a verdict. Every run has a directory with a hash-chained event journal.
--
-- The files and what they model:
-- - Journal: the journal events.jsonl of internal/store/store.go (VerifyEventChain,
--   runJournalState, lastEvent, allowedTransition). A line of the file is an event or garbage; the
--   digest of events and the length of lines are parameters (Encoder). The last line may have lost
--   its newline, and what is written behind it falls on the same line (written_behind).
-- - Runs: LoadRun, AppendEvent, UpdateRunStateHeld, UpdateRunState, RecoverRun and (Runs/Begin)
--   BeginClassifiedRun of internal/store/store.go as functions of the run's directory (RunDir),
--   which return the result and the directory they leave; Io says which accesses of the file
--   system succeed.
-- - Redact: internal/redact/redact.go; the matcher of the regular expressions is a parameter.
-- - Findings: internal/workflow/findings.go (ImportFindings, TransitionFinding, AuthorizeFix,
--   VerifyFixAuthorization, MutationScopeDigest).
-- - Invalidation: internal/workflow/invalidation.go (ComputeInvalidation).
-- - Results: the types of internal/results/result.go; Results/Validate has Validate,
--   Results/Compare has Compare, Results/Index has internal/results/index.go.
-- - Inventory: the types of internal/inventory/inventory.go and internal/contracts/contracts.go.
-- - Risk: internal/risk/risk.go (Assess). - Planner: internal/planner/planner.go (Build).
-- - Policy: internal/policy/classification.go and the approval type of pkg/schema/contracts.go.
-- - Gates: internal/gates/plan.go (topological); Gates/Selection has the choice of gates by changed
--   paths, Gates/Expand has BuildPlan, Gates/Runner has Run of internal/gates/runner.go, on a
--   machine that each call may change.
-- - Retention: ArchiveRun and the checks of internal/store/retention.go; Retention/Collect has PlanGC
--   and ExecuteGC on the whole store (Store).
-- - Config: Validate of internal/config/config.go; Config/Load has the file format and the layers
--   (loadLayer, LoadExactWithBaseline, LoadEffectiveWithBaseline).
-- - Locks: acquire and Release of internal/store/store.go as a step relation over processes that
--   interleave. - Blobs: writeBlob and ReadBlob of the same file.
-- - Packets: internal/packets/packet.go (Build, Materialize) and AppendAttempt of
--   internal/providers/attempt.go.
-- - Reporting: Build and verdict of internal/reporting/report.go.
-- - Prelude and Digests: shared helpers, and SHA-256 as a parameter. Tests: the witnesses.
--
-- How the parts meet: Runs keeps the state in the journal and in run.json; the planner reads the
-- risks of Risk and makes the tasks that Results/Validate, Results/Index and Invalidation read; the
-- ledger imports validated results, and Reporting reads the ledger. A gate plan is run under a
-- trust binding of Policy, Config validates the gates that a plan is built from, and retention
-- archives the directories that Runs works on.
--
-- Conventions: an error is its message without the values that its verbs print; times are
-- nanoseconds on one clock and 0 is the zero time; a Go map is read by its keys; a nil slice is
-- `none` where the code tells it from an empty one; sequence numbers wrap at 2 ^ 64; sizes of files
-- are natural numbers, and their sum is below 2 ^ 63.
--
-- Fuel: the loop of RedactKnown has the fuel of its caller; the slices of a group have fuel for one
-- slice to an entry, since a slice takes one entry at least; the rounds of ComputeInvalidation have
-- fuel for one more than the task IDs and dependencies there are, since each round but the last
-- adds one of them; a visit of topological has fuel for one more than there are gates, since each
-- visit inside another opens a gate; the rounds that pull in dependencies have fuel for one more
-- than the dependencies declared; a visit of Validate has fuel for one more than there are gates,
-- since each visit inside another enters a gate, and an array of a configuration has fuel for each
-- of its bytes, since each string in it takes two at least. The number in ExecuteGC is no fuel: it
-- says how many changes the file system makes before one fails.
--
-- Not modelled: the command line, git, processes and the platform (I/O); JSON, SHA-256, regular
-- expressions, globs and times (Go's library, parameters of the model); the
-- running of Providers, snapshots and the exporter.
pub mod Prelude
pub mod Journal
pub mod Runs
pub mod Redact
pub mod Digests
pub mod Results
pub mod Findings
pub mod Policy
pub mod Inventory
pub mod Risk
pub mod Planner
pub mod Invalidation
pub mod Reporting
pub mod Gates
pub mod Retention
pub mod Config
pub mod Locks
pub mod Blobs
pub mod Packets
mod Tests
