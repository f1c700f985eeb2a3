-- ===== src/Release/Gates/Laws.antt =====
-- When a deployment goes on, and when traffic goes back.
use nouva_agent.Prelude.{◌≡◌, ◌↔◌, ◌⊎◌, ℕ, String, Bool, true, Option, none, arith}
use nouva_agent.Release.Phases.{Phase, Policy, rollback, Outcome}
use nouva_agent.Release.Gates.{
  proceed, decide_pre_activation_gate, nothing, roll_back, decide_verification_consequence,
  describe_reported_release_job,
}

-- Activation goes on, and a verification has no consequence, exactly when the job succeeded; and
-- only then is there no status message.
pub success_iff :
    (o : Outcome) (message : String) (policy : Policy) (available : Bool) (phase : Phase)
    (attempt : ℕ) (code : Option ℕ) (timeout : ℕ) (configured applied : Option Policy)
    → ((decide_pre_activation_gate o message ≡ proceed) ↔ (o ≡ Outcome.succeeded))
      × ((decide_verification_consequence o policy available ≡ nothing) ↔ (o ≡ Outcome.succeeded))
      × ((describe_reported_release_job phase o attempt code timeout configured applied ≡ none)
          ↔ (o ≡ Outcome.succeeded))
unfolding decide_pre_activation_gate decide_verification_consequence describe_reported_release_job
success_iff Outcome.succeeded message policy available phase attempt code timeout configured
      applied =
    ground arith
success_iff Outcome.failed message policy available phase attempt code timeout configured applied =
    ground arith
success_iff Outcome.timed_out message policy available phase attempt code timeout configured
      applied =
    ground arith
success_iff Outcome.outcome_unknown message policy available phase attempt code timeout configured
      applied =
    ground arith

-- Traffic is rolled back exactly on a definite failure of a service that asks for it, where the
-- previous deployment can take traffic.
pub roll_back_iff :
    (o : Outcome) (policy : Policy) (available : Bool)
    → (decide_verification_consequence o policy available ≡ roll_back) ↔ (
        ((o ≡ Outcome.failed) ⊎ (o ≡ Outcome.timed_out)) × (policy ≡ rollback) × (available ≡ true))
unfolding decide_verification_consequence
roll_back_iff o policy available = ground arith
