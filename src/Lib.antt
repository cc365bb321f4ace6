-- ===== src/Lib.antt =====
-- A model of the program's decisions, and what holds of it. Each file names the source files that
-- it is about; names here follow the source's, in another spelling.
--
-- The parts, and where they are:
-- + Upgrade (layers/update-ops/release-versioning/upgrade-contract.ts): Version has parseVersion,
--   compareUpgradeVersions and nextPatchVersion; Range has satisfiesUpgradeRange and
--   rangePermitsVersionNewerThan; Contract has validateUpgradeContract, over the values of Json;
--   Plan has planUpgradePath, which takes a contract that Contract accepts; Lines has
--   validateReleaseLineContracts.
-- + Coordinator (apps/update-coordinator/src/index.ts): the journal and its tests; Execute has
--   executeCoordinatorPlan as the list of what a run does, of which an interrupted run does a
--   prefix. Published loads the contracts of the releases that a target needs; Planning makes the
--   plan, by Upgrade, that Execute runs.
-- + Access (apps/api/src/authz/guards.ts, packages/db/src/tenant-context.ts,
--   packages/db/src/prisma.ts): Guards has the decisions of both planes, Tenant has runInTenant
--   and the audit guard.
-- + Auth (apps/api/src/auth/token-service.ts, dashboard-session.ts, authenticate.ts): Bearer has
--   what a header carries, Tokens what a token is accepted for, Signed what a session is, Owner
--   who gets past the hook; the identity is the context that Access.Tenant takes.
-- + Embedding (packages/shared/src/embeddings/batch.ts, registry.ts): Batch, Retry and Registry.
-- + Dlp (layers/security-dlp/src/dlp-gate/index.ts): the scanner's client and the gate.
-- + Sessions (apps/api/src/services/mcp-sessions.ts, layers/mcp-runtime/src/http-idle.ts,
--   http-session.ts, apps/onboard/server/idle-lifecycle.ts): Clients, Idle and Lease.
-- + Resources (apps/onboard/shared/resource-policy.ts): Models has the types and the table,
--   Evaluation has evaluateResources, Recommendation has recommendResources.
-- + Chunker (packages/shared/src/extract/chunker.ts): Splitting has recursiveSplit, whose leaves
--   Packing packs in chunkText.
-- + Knowledge (packages/shared/src/knowledge/contract.ts, apps/api/src/services/knowledge.ts):
--   Contract has the issues that superRefine adds, Catalog resolveClassification, Claims
--   classificationData and persistClaim, Receipts withReceipt and existingReceipt, Writes
--   saveKnowledge and updateKnowledge, and Steps what many requests do to one store, each of
--   which may read what is out of date by the time of its transaction. What zod's rules for
--   single fields give is a parameter.
-- + Logs (apps/docker-control/src/parse.ts): the health and kind of a container and, in Frames,
--   the log format that Docker documents.
-- + Switch (packages/shared/src/switch/migration.ts, run.ts): the sequence of runSwitch on one
--   state, in which each call may fail.
-- + Worker (apps/worker/src/steps/ingest-reconciler.ts, document-version.ts, graph-lifecycle.ts,
--   apps/worker/src/scheduled/reconcile.ts, apps/api/src/services/graph-lifecycle.ts,
--   memory-update-routing.ts): Requeue, Graph, Schedules and Updates.
-- + Tests: runs of the definitions and the theorems at concrete inputs, part by part; Prelude:
--   what the parts share.
--
-- Code that throws returns a Result, whose error names the throw. Numbers are natural numbers or
-- integers, without the rounding of JavaScript above 2^53. Text that is taken apart is a list of
-- code units. A Map from text is an association list (Prelude.Assoc). Loops are recursions on
-- their list; those that are not run on fuel: the printing of a number and the batches have the
-- number and the length as fuel, a retry has a round for each attempt and one more, and the
-- loading of releases has 26 turns, of which the code allows 25. That the fuel is enough is part
-- of what is proved.
--
-- Not modelled: what the database, the network, the queue and the clock do, which are parameters,
-- the texts of messages, and the user interfaces.
pub mod Prelude
pub mod Json
pub mod Upgrade
pub mod Access
pub mod Auth
pub mod Embedding
pub mod Dlp
pub mod Sessions
pub mod Resources
pub mod Chunker
pub mod Coordinator
pub mod Knowledge
pub mod Logs
pub mod Switch
pub mod Worker
pub mod Tests
