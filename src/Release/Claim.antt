-- ===== src/Release/Claim.antt =====
-- What the control plane answers to a claim and to a report: `decideReleaseJobClaim`,
-- `decideReleaseJobReport` and `decideReleaseJobResolution` of packages/runtime/src/release-phases.ts.
use nouva_agent.Prelude.{
  ℕ, ◌+◌, ◌==◌, String, ◌<>◌, str_eq, Bool, true, false, Option, none, some, get_or_else,
  if◌then◌else◌, decimal,
}
use nouva_agent.Release.Phases.{
  Phase, pre_activation, verification, Outcome, Status, pending, running, ended, Failure,
  failure_of, outcome_name, status_name,
}

-- The control plane's row for one phase of a deployment.
pub record JobRecord : Type 0 where
  pub status : Status
  pub attempt : ℕ
  pub status_message : Option String
  -- The lease whose claim started the current attempt.
  pub claimed_lease : Option String

pub data ClaimResponse : Type 0 where
  run resume skip : (attempt : ℕ) → ClaimResponse
  wait : (attempt : ℕ) (message : String) → ClaimResponse
  halt : (attempt : ℕ) (status : Failure) (message : String) → ClaimResponse

pub record ClaimDecision : Type 0 where
  pub response : ClaimResponse
  -- The attempt that the control plane commits as running before it answers.
  pub transition : Option ℕ

same_lease : Option String → String → Bool
same_lease none lease = false
same_lease (some claimed) lease = str_eq claimed lease

halt_message : Option String → Outcome → String
halt_message message o = get_or_else message ("Release job ended as " <> outcome_name o)

settled : ℕ → Option String → Outcome → ClaimDecision
unfolding halt_message
settled attempt message o = elim (failure_of o) [
  | none ↦ record { response = skip attempt; transition = none }
  | some f ↦ record { response = halt attempt f (halt_message message o); transition = none }
]

unfoldable pub decide_claim_on : Status → JobRecord → String → ClaimDecision
unfolding same_lease settled
decide_claim_on pending r lease = record {
  response = run (r.attempt + 1);
  transition = some (r.attempt + 1);
}
decide_claim_on running r lease =
    if same_lease r.claimed_lease lease
    then record { response = run r.attempt; transition = none }
    else record { response = resume r.attempt; transition = none }
decide_claim_on (ended o) r lease = settled r.attempt r.status_message o

unfoldable pub decide_release_job_claim : JobRecord → String → ClaimDecision
unfolding decide_claim_on
decide_release_job_claim r lease = decide_claim_on r.status r lease

pub data ReportDecision : Type 0 where
  record_it duplicate : ReportDecision
  reject : String → ReportDecision

abbrev pub same_outcome : Outcome → Outcome → Bool
same_outcome Outcome.succeeded Outcome.succeeded = true
same_outcome Outcome.failed Outcome.failed = true
same_outcome Outcome.timed_out Outcome.timed_out = true
same_outcome Outcome.outcome_unknown Outcome.outcome_unknown = true
same_outcome _ _ = false

already_recorded : ℕ → Status → ReportDecision
already_recorded attempt status =
    reject (
      "Release job attempt " <> decimal attempt <> " is already recorded as " <> status_name status)

decide_report_on : Status → ℕ → Outcome → ReportDecision
unfolding already_recorded
decide_report_on pending attempt outcome = already_recorded attempt pending
decide_report_on running attempt outcome = record_it
decide_report_on (ended o) attempt outcome =
    if same_outcome o outcome then duplicate else already_recorded attempt (ended o)

-- Whether a report may be written.
unfoldable pub decide_release_job_report : JobRecord → ℕ → Outcome → ReportDecision
unfolding decide_report_on
decide_release_job_report r attempt outcome =
    if attempt == r.attempt
    then decide_report_on r.status r.attempt outcome
    else reject (
        "Release job attempt "
        <> decimal attempt
        <> " is not the current attempt "
        <> decimal r.attempt)

pub data Resolution : Type 0 where
  retry mark_succeeded : Resolution

pub data ResolutionDecision : Type 0 where
  next : Status → ResolutionDecision
  refused : String → ResolutionDecision

cannot_retry : Status → ResolutionDecision
cannot_retry status =
    refused ("A " <> status_name status <> " pre-activation job cannot be retried")

only_unknown : ResolutionDecision
only_unknown = refused "Only a pre-activation job whose outcome is unknown can be marked succeeded"

resolve_pre : Status → Resolution → ResolutionDecision
unfolding cannot_retry only_unknown
resolve_pre (ended Outcome.succeeded) retry = cannot_retry (ended Outcome.succeeded)
resolve_pre (ended o) retry = next pending
resolve_pre status retry = cannot_retry status
resolve_pre (ended Outcome.outcome_unknown) mark_succeeded = next (ended Outcome.succeeded)
resolve_pre status mark_succeeded = only_unknown

-- An operator's answer to a pre-activation job that stopped a deployment.
unfoldable pub decide_release_job_resolution : Phase → Status → Resolution → ResolutionDecision
unfolding resolve_pre
decide_release_job_resolution verification status resolution =
    refused "Only a pre-activation job can be resolved; redeploy to verify again"
decide_release_job_resolution pre_activation status resolution = resolve_pre status resolution
