-- ===== src/Release/Gates.antt =====
-- What an outcome does to the deployment: `decidePreActivationGate`,
-- `decideVerificationConsequence` and `describeReportedReleaseJob` of
-- packages/runtime/src/release-phases.ts.
pub mod Laws
use nouva_agent.Prelude.{ℕ, String, ◌<>◌, Bool, true, false, Option, none, some}
use nouva_agent.Release.Phases.{
  Phase, pre_activation, verification, Policy, keep, rollback, Outcome, Failure, failure_of,
  describe_release_job_outcome,
}

pub data Gate : Type 0 where
  proceed : Gate
  stop : (message : String) → Gate

unfoldable pub decide_pre_activation_gate : Outcome → String → Gate
decide_pre_activation_gate Outcome.succeeded message = proceed
decide_pre_activation_gate _ message = stop (message <> ". The new deployment was not activated.")

pub data Consequence : Type 0 where
  nothing : Consequence
  keep_new : (reason : String) → Consequence
  roll_back : Consequence

consequence_of_failure : Policy → Bool → Consequence
consequence_of_failure keep available =
    keep_new "The service keeps the new deployment when verification fails"
consequence_of_failure rollback false =
    keep_new "The previous deployment cannot take traffic back, so the new deployment keeps serving"
consequence_of_failure rollback true = roll_back

-- What a verification result does to the runtime that already serves.
unfoldable pub decide_verification_consequence : Outcome → Policy → Bool → Consequence
unfolding consequence_of_failure
decide_verification_consequence Outcome.succeeded policy available = nothing
decide_verification_consequence Outcome.outcome_unknown policy available =
    keep_new "The verification result is unknown, so the new deployment keeps serving"
decide_verification_consequence _ policy available = consequence_of_failure policy available

-- The last two messages of a verification: the configured rollback was not possible, or it was not
-- asked for. A failure without an exit code never started.
kept_message : Failure → Option ℕ → Option Policy → String
kept_message Failure.failed none configured = ". The new deployment keeps serving."
kept_message Failure.outcome_unknown code configured = ". The new deployment keeps serving."
kept_message f code (some rollback) =
    ". The previous deployment could not take traffic back, so the new deployment keeps serving."
kept_message f code configured = ". The new deployment keeps serving."

applied_message : Phase → Failure → Option ℕ → Option Policy → Option Policy → String
unfolding kept_message
applied_message pre_activation f code configured applied = ". The new deployment was not activated."
applied_message verification f code configured (some rollback) =
    ". Traffic was returned to the previous deployment; no data or schema was rolled back."
applied_message verification f code configured applied = kept_message f code configured

-- The status message of a reported attempt: the phase, the outcome, the attempt, the exit code, the
-- timeout, the configured policy and the applied one. `none` for a success.
unfoldable pub describe_reported_release_job :
    Phase → Outcome → ℕ → Option ℕ → ℕ → Option Policy → Option Policy → Option String
unfolding applied_message describe_release_job_outcome
describe_reported_release_job phase outcome attempt code timeout configured applied =
    elim (failure_of outcome) [
      | none ↦ none
      | some f ↦ some (
          describe_release_job_outcome phase f attempt code timeout
          <> applied_message phase f code configured applied)
    ]
