-- ===== src/Release/Runner/ControlPlane.antt =====
-- `callControlPlane`, `claimPhase` and `reportOutcome` of agent/src/release-jobs.ts: calls that are
-- repeated, backing off, for as long as a restart of the control plane takes.
use Prim.Native.Nat.{zero, suc}
use nouva_agent.Prelude.{
  ℕ, ◌+◌, ◌*◌, ◌==◌, leb, ltb, min, String, ◌<>◌, Bool, true, false, not, ◌&&◌, ◌||◌, Option, none,
  some, List, ◌∷◌, if◌then◌else◌,
}
use nouva_agent.Prelude.Effects.{
  ok, threw, Answer, value, failure, Act, throw, no_fuel, call, catching, ◌>>=◌, ◌>>◌,
}
use nouva_agent.Release.Phases.{Phase, pre_activation, verification}
use nouva_agent.Release.Claim.{ClaimResponse}
use nouva_agent.Release.Outside.{
  Event, claimed, reported, slept, Thrown, failed, deferred, Host, Report,
}

abbrev pub retry_budget_ms : ℕ
retry_budget_ms = 120000

abbrev pub retry_initial_delay_ms : ℕ
retry_initial_delay_ms = 2000

abbrev pub retry_max_delay_ms : ℕ
retry_max_delay_ms = 30000

-- `PHASE_LABEL`
abbrev pub phase_word : Phase → String
phase_word pre_activation = "pre-activation"
phase_word verification = "verification"

-- `error.status`, where it is a number.
abbrev pub status_of : Thrown → Option ℕ
status_of (failed status) = status
status_of (deferred message) = none

abbrev is_retryable_status : Option ℕ → Bool
is_retryable_status none = true
is_retryable_status (some status) = leb 500 status

abbrev pub is_retryable : Thrown → Bool
is_retryable x = is_retryable_status (status_of x)

abbrev pub is_conflict : Option ℕ → Bool
is_conflict none = false
is_conflict (some status) = status == 409

abbrev pub is_verification : Phase → Bool
is_verification pre_activation = false
is_verification verification = true

unfoldable pub defer_while_unreachable : Phase → Thrown → String → Thrown
defer_while_unreachable phase x action =
    if is_verification phase || not (is_retryable x)
    then x
    else deferred (
        "Could not "
        <> (action
            <> (" the "
                <> (phase_word phase
                    <> " job with the control plane; the deployment will pick it up again"))))

unfoldable pub claim_give_up : Phase → Thrown → Bool → Thrown
unfolding defer_while_unreachable
claim_give_up phase x retried =
    if retried && is_conflict (status_of x)
    then deferred (
        "The control plane returned this deployment to the queue while claiming the "
        <> (phase_word phase <> " job"))
    else defer_while_unreachable phase x "claim"

module _ (h : Host) where
  abbrev pub clock : Act Event Thrown ℕ
  clock t = (ok (h.now t), t)

  -- What follows a failure: give up, or a wait and another try.
  abbrev pub after_failure :
      {A : Type 0}
      → (Thrown → Bool → Thrown)
      → ℕ
      → ℕ
      → Bool
      → Act Event Thrown A
      → Thrown
      → Act Event Thrown A
  after_failure give_up give_up_at delay retried again x = do
    now ← clock
    if not (is_retryable x) || ltb give_up_at (now + delay)
        then throw (give_up x retried)
        else call (slept delay) (λ t. value tt) >> again

  -- The loop of `callControlPlane`.
  unfoldable pub call_from :
      {A : Type 0}
      → ℕ
      → Act Event Thrown A
      → (Thrown → Bool → Thrown)
      → ℕ
      → ℕ
      → Bool
      → Act Event Thrown A
  call_from zero try_once give_up give_up_at delay retried = no_fuel
  call_from (suc fuel) try_once give_up give_up_at delay retried =
      let again =
        call_from fuel try_once give_up give_up_at (min (delay * 2) retry_max_delay_ms) true in
      catching try_once (after_failure give_up give_up_at delay retried again)

  unfoldable pub call_control_plane :
      {A : Type 0} → ℕ → Act Event Thrown A → (Thrown → Bool → Thrown) → Act Event Thrown A
  unfolding call_from
  call_control_plane fuel try_once give_up = do
    now ← clock
    call_from fuel try_once give_up (now + retry_budget_ms) retry_initial_delay_ms false

  abbrev pub claim_answered :
      List String → Answer Thrown ClaimResponse → Act Event Thrown ClaimResponse
  claim_answered jobs (value c) t = (ok c, claimed jobs (some c) ∷ t)
  claim_answered jobs (failure x) t = (threw x, claimed jobs none ∷ t)

  unfoldable pub claim_once : List String → Act Event Thrown ClaimResponse
  claim_once jobs t = claim_answered jobs (h.claim t jobs) t

  unfoldable pub claim_phase : ℕ → Phase → List String → Act Event Thrown ClaimResponse
  unfolding claim_once
  claim_phase fuel phase jobs = call_control_plane fuel (claim_once jobs) (claim_give_up phase)

  abbrev pub report_answered : Report → Answer Thrown (Unit {0}) → Act Event Thrown (Unit {0})
  report_answered r (value o) t = (ok o, reported r true ∷ t)
  report_answered r (failure x) t = (threw x, reported r false ∷ t)

  unfoldable pub report_once : Report → Act Event Thrown (Unit {0})
  report_once r t = report_answered r (h.report t r) t

  unfoldable pub report_outcome : ℕ → Phase → Report → Act Event Thrown (Unit {0})
  unfolding report_once
  report_outcome fuel phase r =
      call_control_plane fuel (report_once r)
        (λ x retried. defer_while_unreachable phase x "report the outcome of")
