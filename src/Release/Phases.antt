-- ===== src/Release/Phases.antt =====
-- The vocabulary of packages/runtime/src/release-phases.ts: phases, statuses, outcomes, and the
-- messages that an attempt's outcome is worded with.
use nouva_agent.Prelude.{ℕ, String, ◌<>◌, Option, none, some, decimal}

pub data Phase : Type 0 where
  pre_activation verification : Phase

pub data Policy : Type 0 where
  keep rollback : Policy

-- The statuses that an attempt can end in.
pub data Outcome : Type 0 where
  succeeded failed timed_out outcome_unknown : Outcome

-- What the control plane records of an attempt: open, or ended in an outcome.
pub data Status : Type 0 where
  pending running : Status
  ended : Outcome → Status

-- An outcome that is not a success.
pub data Failure : Type 0 where
  failed timed_out outcome_unknown : Failure

abbrev pub outcome_of : Failure → Outcome
outcome_of Failure.failed = Outcome.failed
outcome_of Failure.timed_out = Outcome.timed_out
outcome_of Failure.outcome_unknown = Outcome.outcome_unknown

-- `outcome === "succeeded"`, with the other three as failures.
abbrev pub failure_of : Outcome → Option Failure
failure_of Outcome.succeeded = none
failure_of Outcome.failed = some Failure.failed
failure_of Outcome.timed_out = some Failure.timed_out
failure_of Outcome.outcome_unknown = some Failure.outcome_unknown

unfoldable pub outcome_name : Outcome → String
outcome_name Outcome.succeeded = "succeeded"
outcome_name Outcome.failed = "failed"
outcome_name Outcome.timed_out = "timed_out"
outcome_name Outcome.outcome_unknown = "outcome_unknown"

unfoldable pub status_name : Status → String
unfolding outcome_name
status_name pending = "pending"
status_name running = "running"
status_name (ended o) = outcome_name o

unfoldable pub phase_label : Phase → String
phase_label pre_activation = "Pre-activation job"
phase_label verification = "Verification"

lost_advice : Phase → String
lost_advice pre_activation = ". Check its effect, then retry it or mark it succeeded"
lost_advice verification = ""

failed_message : Phase → Option ℕ → String
unfolding phase_label
failed_message phase none = phase_label phase <> " could not be started"
failed_message phase (some code) = phase_label phase <> " failed with exit code " <> decimal code

unfoldable pub describe_release_job_outcome : Phase → Failure → ℕ → Option ℕ → ℕ → String
unfolding phase_label lost_advice failed_message
describe_release_job_outcome phase Failure.failed attempt exit_code timeout =
    failed_message phase exit_code
describe_release_job_outcome phase Failure.timed_out attempt exit_code timeout =
    phase_label phase <> " timed out after " <> decimal timeout <> "s"
describe_release_job_outcome phase Failure.outcome_unknown attempt exit_code timeout =
    phase_label phase
    <> " attempt "
    <> decimal attempt
    <> " was started but its result was lost; it was not run again"
    <> lost_advice phase

-- The message of an attempt that still ran when its deployment's work ended.
unfoldable pub describe_interrupted_release_job : Phase → ℕ → String
unfolding describe_release_job_outcome
describe_interrupted_release_job phase attempt =
    describe_release_job_outcome phase Failure.outcome_unknown attempt none 0
    <> ". Its result was never reported."
