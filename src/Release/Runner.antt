-- ===== src/Release/Runner.antt =====
-- `createReleasePhaseRunner(...).run` and `deferWhileBlockingJobRuns` of agent/src/release-jobs.ts,
-- over any Docker, control plane and clock. The loops take fuel; Runner/Laws shows how much is
-- enough. Progress messages leave no event.
pub mod ControlPlane
pub mod Attempt
pub mod History
pub mod Laws
mod Tests
use nouva_agent.Prelude.{
  ℕ, String, ◌<>◌, utf16_length, ◌==◌, Option, none, some, List, [], ◌∷◌, if◌then◌else◌,
  get_or_else,
}
use nouva_agent.Prelude.Effects.{Act, pure, throw, call, catching, ◌>>=◌, ◌>>◌}
use nouva_agent.Release.Phases.{
  Phase, pre_activation, verification, Policy, Outcome, Failure, failure_of,
  describe_release_job_outcome,
}
use nouva_agent.Release.Claim.{ClaimResponse, run, resume, skip, wait, halt}
use nouva_agent.Release.Gates.{describe_reported_release_job}
use nouva_agent.Release.Jobs.{
  Target, read_running_jobs, remove_settled_attempts, remove_other_deployments_exited_jobs,
}
use nouva_agent.Release.Outside.{Event, image_prepared, removed_own, Thrown, deferred, Host, Report}
use ControlPlane.{claim_phase}
use Attempt.{
  Request, phase_name, build_release_job_container_name, Decision, runs, resumes, Reported,
  attempt_and_report,
}

pub data PhaseResult : Type 0 where
  succeeded : (attempt : ℕ) → PhaseResult
  unsuccessful :
      (attempt : ℕ) (outcome : Failure) (message : String) (applied_policy : Option Policy)
      → PhaseResult

abbrev start_error : String → String
start_error text = if utf16_length text == 0 then "" else " Start error: " <> text

abbrev failure_suffix : (Thrown → String) → Option Thrown → String
failure_suffix error_text none = ""
failure_suffix error_text (some x) = start_error (error_text x)

module _ (h : Host) where
  -- The result of a reported attempt, with the message that words it.
  unfoldable pub result_of : Request → Reported → PhaseResult
  result_of request reported =
      let r = reported.report in
      elim (failure_of r.outcome) [
        | none ↦ succeeded r.attempt
        | some f ↦
            unsuccessful r.attempt f
              (get_or_else
                  (describe_reported_release_job request.phase r.outcome r.attempt r.exit_code
                    request.timeout_seconds request.configured_policy r.applied_policy)
                  (describe_release_job_outcome request.phase f r.attempt r.exit_code
                    request.timeout_seconds)
                <> failure_suffix h.error_text reported.start_failure)
              r.applied_policy
      ]

  -- An unacknowledged verification is discarded; any error goes on.
  abbrev pub discard_and_throw : Phase → Thrown → Act Event Thrown Reported
  discard_and_throw pre_activation x = throw x
  discard_and_throw verification x =
      catching (call removed_own h.remove_own) (λ y. pure tt) >> throw x

  unfoldable pub attempt_phase : ℕ → Target → Request → Decision → ℕ → Act Event Thrown PhaseResult
  unfolding attempt_and_report result_of
  attempt_phase fuel target request decision attempt = do
    reported ←
        catching
          (attempt_and_report h fuel target request decision
            (build_release_job_container_name target.service_id target.deployment_id request.phase
              attempt)
            attempt)
          (discard_and_throw request.phase)
    catching (call removed_own h.remove_own) (λ x. pure tt)
    pure (result_of request reported)

  abbrev pub after_claim : ℕ → Target → Request → ClaimResponse → Act Event Thrown PhaseResult
  after_claim fuel target request (wait attempt message) = throw (deferred message)
  after_claim fuel target request (skip attempt) = do
    remove_settled_attempts h
    pure (succeeded attempt)
  after_claim fuel target request (halt attempt status message) = do
    remove_settled_attempts h
    pure (unsuccessful attempt status message none)
  after_claim fuel target request (run attempt) = do
    remove_other_deployments_exited_jobs h target (phase_name request.phase)
    attempt_phase fuel target request runs attempt
  after_claim fuel target request (resume attempt) =
      attempt_phase fuel target request resumes attempt

  unfoldable pub run_phase : ℕ → Target → Request → Act Event Thrown PhaseResult
  unfolding attempt_phase
  run_phase fuel target request = do
    call image_prepared h.prepare_image
    jobs ← read_running_jobs h target (phase_name request.phase)
    claim ← claim_phase h fuel request.phase jobs
    after_claim fuel target request claim

  abbrev pub defer_if_waiting : ClaimResponse → Act Event Thrown (Unit {0})
  defer_if_waiting (wait attempt message) = throw (deferred message)
  defer_if_waiting _ = pure tt

  abbrev pub claim_if_running : ℕ → List String → Act Event Thrown (Unit {0})
  claim_if_running fuel [] = pure tt
  claim_if_running fuel (id ∷ ids) = do
    claim ← claim_phase h fuel pre_activation (id ∷ ids)
    defer_if_waiting claim

  unfoldable pub defer_while_blocking_job_runs : ℕ → Target → Act Event Thrown (Unit {0})
  defer_while_blocking_job_runs fuel target = do
    jobs ← read_running_jobs h target "pre_activation"
    claim_if_running fuel jobs
