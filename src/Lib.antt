-- ===== src/Lib.antt =====
-- The Nouva agent runs on a customer's server: it leases work from a control plane, builds and rolls
-- out services with Docker, and reports what became of it. This library models the parts that
-- decide: what a deployment may do next, in which order containers start and stop, when a failure is
-- final, and what is reported.
--
-- Release models packages/runtime/src/release-phases.ts, which the control plane and the agent share.
--   Phases: phases, statuses, outcomes and their messages. Config: validateServiceReleaseConfig and
--   normalizeServiceReleaseConfig. Claim: decideReleaseJobClaim, decideReleaseJobReport and
--   decideReleaseJobResolution. Blockers: selectReleaseJobBlocker. Recovery:
--   classifyReleaseJobExit and decideReleaseJobRecovery. Gates: decidePreActivationGate,
--   decideVerificationConsequence and describeReportedReleaseJob. Protocol is the control plane's row
--   of one phase as a step relation: claims by any lease, reports of any attempt and an operator's
--   resolutions, in any order and any number. Outside, Jobs and Runner are
--   agent/src/release-jobs.ts: what it calls, the sweeps of job containers with readRunningJobs, and
--   createReleasePhaseRunner. Runner/ControlPlane has the claims and reports with callControlPlane,
--   Runner/Attempt attemptAndReport and what it uses, Runner/History the rules for a history.
-- Worker models the retirement of worker processes. Rollout: planWorkerRollout of
--   agent/src/worker-rollout-plan.ts. Shutdown and Signal: stopWorkerContainerGracefully and
--   resolveWorkerStopSignal of agent/src/worker-shutdown.ts. Readiness: waitForWorkerReadiness of
--   agent/src/worker-runtime.ts. Policy and Reports: the policy and the
--   reports of packages/runtime/src/worker-shutdown.ts as they arrive and are passed on.
-- Work models leased work. Reporting: executeAndReportAgentWork of agent/src/agent-work-reporting.ts.
--   Scheduler: createBoundedWorkScheduler of agent/src/work-scheduler.ts, one step for each piece of
--   code between two waits.
-- Service models what is decided of a running container. Readiness:
--   agent/src/app-candidate-readiness.ts. Restarts: agent/src/container-restarts.ts. Limits:
--   agent/src/docker-resource-limits.ts. Update: agent/src/update-agent.ts.
-- Capacity models packages/runtime/src/server-capacity.ts. Budget: calculateServerCapacityBudget and
--   getServerCapacityLimits. Storage: calculateStorageReservationCapacity.
-- Backup models the admission of a customer's database backup,
--   packages/runtime/src/external-backup-import.ts. Reading: the byte cursor with readArchiveInt and
--   readArchiveString. Archive: parsePostgresCustomDumpHeader; Archive/Written is a writer of such
--   heads to read back. Snapshot: parseRedisRdbHeader. Versions: the versions and the regular
--   expressions. Admission: verifyExternalBackupArtifact.
-- Logs models agent/src/build-logs.ts. Lines: createLineSplitter. Publisher: createBuildLogPublisher,
--   one step for each entry, timer and close.
-- Agent models the agent's own loops. Interval: agent/src/rearmable-interval.ts. Cleanup:
--   agent/src/service-container-cleanup.ts. Heartbeat: agent/src/agent-heartbeat.ts. Clock: the
--   reading of timedatectl and evaluateClockSync of agent/src/clock-sync.ts. Wipe:
--   agent/src/volume-wipe-receipt.ts, with a write as the file operations it does.
-- Prelude holds what they share. Its Effects models asynchronous code as a function of the history of
--   its calls: Docker, the control plane and the clock answer each call by an arbitrary function of
--   the history before it, so that a theorem about every such function is one about every
--   behaviour of the outside. Number models the doubles of JavaScript where a value may be NaN,
--   infinite or fractional; Names models sets of text; Text models the string operations.
--
-- Numbers that are whole and never negative (attempts, exit codes, times in milliseconds, sizes) are
-- natural numbers, exact as the doubles are below 2^53; products with a ratio in floating point are
-- parameters. Letter case is that of ASCII. Date.parse is a parameter. What is only logged leaves no
-- event. A loop that polls takes fuel: one round for each millisecond of its deadline is enough,
-- since a wait between two rounds takes at least a millisecond; the retries of a report are four
-- by construction. A release job's runner takes more fuel than its retry budget and than its timeout
-- have milliseconds.
--
-- Not modelled: the process, its HTTP requests and its files (agent/src/index.ts,
-- agent/src/docker-api.ts, agent/src/protocol.ts), the writers of Traefik's and Alloy's
-- configuration, the builds, the redaction of logs, the rollout of agent/src/worker-runtime.ts,
-- which needs Docker throughout, the check of an import's receipt (in
-- packages/runtime/src/external-backup-import.ts), and the sentences that describe a shutdown or a
-- lack of capacity.
pub mod Prelude
pub mod Agent
pub mod Backup
pub mod Capacity
pub mod Logs
pub mod Release
pub mod Service
pub mod Work
pub mod Worker
