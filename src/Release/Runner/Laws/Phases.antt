-- ===== src/Release/Runner/Laws/Phases.antt =====
-- A whole phase, from its claim to its result.
use nouva_agent.Prelude.{
  ℕ, ◌≡◌, refl, ◌<◌, ◌*◌, Option, none, some, List, [], ◌∷◌, arith, inl, inr, ◌⊎◌, String,
}
use nouva_agent.Prelude.Effects.{
  Act, catching, and_then, Ends, and_then-Ends, or_catch-Ends, call-Ends, Ends-weaken, call, pure,
  Answer-cases, Result,
}
use nouva_agent.Release.Phases.{Phase, pre_activation, verification, Outcome, Failure, failure_of}
use nouva_agent.Release.Claim.{ClaimResponse, run, resume, skip, wait, halt}
use nouva_agent.Release.Jobs.{Target}
use nouva_agent.Release.Jobs.Laws.{read-Ends, attempts-Ends, others-Ends}
use nouva_agent.Release.Outside.{
  Event, removed_own, image_prepared, Thrown, Host, IsClock, IsStamped,
}
use nouva_agent.Release.Runner.{
  PhaseResult, succeeded, unsuccessful, result_of, discard_and_throw, attempt_phase, after_claim,
  run_phase, build_release_job_container_name, phase_name, claim_phase,
}
use nouva_agent.Release.Runner.Attempt.{
  Request, Decision, runs, resumes, Reported, attempt_and_report,
}
use nouva_agent.Release.Runner.History.{
  IsSound, IsJustified, Returned, Interrupted, claimed_attempt,
}
use nouva_agent.Release.Runner.Laws.Calls.{Before, claim_phase-Ends}
use nouva_agent.Release.Runner.Laws.Attempts.{claim_of, Before-KeepsLook, Before-KeepsSweep}
use nouva_agent.Release.Runner.Laws.Reports.{HasSent, attempt_and_report-Ends}

claim_of-attempt : (d : Decision) (a : ℕ) → claimed_attempt (some (claim_of d a)) ≡ some a
claim_of-attempt runs a = refl
claim_of-attempt resumes a = refl

-- A report that was acknowledged justifies the result made of it.
Outcome-cases : (o : Outcome) → (o ≡ Outcome.succeeded) ⊎ ((f : Failure) × (failure_of o ≡ some f))
Outcome-cases Outcome.succeeded = inl refl
Outcome-cases Outcome.failed = inr (Failure.failed, refl)
Outcome-cases Outcome.timed_out = inr (Failure.timed_out, refl)
Outcome-cases Outcome.outcome_unknown = inr (Failure.outcome_unknown, refl)

-- What a sent report leaves: sound, justified, and whatever becomes of the container.
abbrev Settled : Phase → PhaseResult → List Event → Type 0
Settled p result t = IsSound p t × IsJustified result t

module _ (h : Host) (request : Request) where
  justified :
      (c : Option ClaimResponse) (a : ℕ) (r : Reported) (t : List Event)
      → HasSent request.phase c a r t
      → IsJustified (result_of h request r) t
  unfolding result_of
  justified c a r t ((sound, claim, ack), same) = elim (Outcome-cases r.report.outcome) [
    | inl e ↦ rw e (inr (r.report, ack, e, refl))
    | inr (f, e) ↦ rw (IsJustified, e) (inr (r.report, ack, e, refl, refl))
  ]

  -- The removal keeps what a result rests on.
  removed-IsJustified :
      (result : PhaseResult) (t : List Event)
      → IsJustified result t
      → IsJustified result (removed_own ∷ t)
  removed-IsJustified (succeeded a) t j = j
  removed-IsJustified (unsuccessful a f message policy) t j = j

  cleaned-Ends :
      (c : Option ClaimResponse) (a : ℕ) (r : Reported) (t : List Event)
      → HasSent request.phase c a r t
      → Ends
          (λ o u. Returned request.phase (result_of h request r) u)
          (λ x u. ⊥)
          (λ u. ⊥)
          (catching (call removed_own h.remove_own) (λ x. pure tt) t)
  cleaned-Ends c a r t ((sound, claim, ack), same) =
      let left : Returned request.phase (result_of h request r) (removed_own ∷ t) = (
        (rw ack (ground arith), sound),
        removed-IsJustified _ t (justified c a r t ((sound, claim, ack), same)),
        ground arith,
      ) in
      or_catch-Ends (λ o u. Returned request.phase (result_of h request r) u)
        (λ x u. Returned request.phase (result_of h request r) u) (λ x u. ⊥) (λ u. ⊥) _ _
        (call-Ends (λ o u. Returned request.phase (result_of h request r) u)
          (λ x u. Returned request.phase (result_of h request r) u) (λ u. ⊥) (h.remove_own t)
          (removed_own ∷ t) (λ o. left) (λ x. left))
        (λ x u w. w)

discard-Ends :
    (h : Host) (p : Phase) (Q : Reported → List Event → Type 0) (x : Thrown) (t : List Event)
    → IsSound p t
    → Ends Q (λ y u. Interrupted p u) (λ u. ⊥) (discard_and_throw h p x t)
discard-Ends h pre_activation Q x t sound = (sound, refl)
discard-Ends h verification Q x t sound = elim (Answer-cases (h.remove_own t)) [
  | inl (o, e) ↦ rw e ((refl, sound), ground arith)
  | inr (y, e) ↦ rw e ((refl, sound), ground arith)
]

module _ (h : Host) (clock : IsClock h) (stamped : IsStamped h) (fuel : ℕ) (target : Target)
    (request : Request) (enough : 120000 < fuel)
    (long : request.timeout_seconds * 1000 < fuel) where
  attempt_phase-Ends :
      (d : Decision) (a : ℕ) (t : List Event)
      → Before request.phase (some (claim_of d a)) t
      → Ends
          (Returned request.phase)
          (λ x u. Interrupted request.phase u)
          (λ u. ⊥)
          (attempt_phase h fuel target request d a t)
  unfolding attempt_phase
  attempt_phase-Ends d a t b =
      let c = some (claim_of d a) in
      let name =
        build_release_job_container_name target.service_id target.deployment_id request.phase a in
      and_then-Ends (HasSent request.phase c a) (λ x u. Interrupted request.phase u) (λ u. ⊥)
        (Returned request.phase) _ _
        (or_catch-Ends (HasSent request.phase c a) (λ x u. IsSound request.phase u)
          (λ x u. Interrupted request.phase u) (λ u. ⊥)
          (attempt_and_report h fuel target request d name a t) (discard_and_throw h request.phase)
          (attempt_and_report-Ends h clock c request fuel a (claim_of-attempt d a) enough stamped
            target d name t refl long b)
          (discard-Ends h request.phase (HasSent request.phase c a)))
        (λ r u sent.
          and_then-Ends (λ o v. Returned request.phase (result_of h request r) v)
            (λ x v. Interrupted request.phase v) (λ v. ⊥) (Returned request.phase)
            (catching (call removed_own h.remove_own) (λ x. pure tt) u) _
            (Ends-weaken (λ o v. Returned request.phase (result_of h request r) v)
              (λ o v. Returned request.phase (result_of h request r) v) (λ x v. ⊥)
              (λ x v. Interrupted request.phase v) (λ v. ⊥) _ (λ o v w. w) (λ x v w. absurd w)
              (cleaned-Ends h request c a r u sent))
            (λ o v w. w))

  -- Before the container is started, an error leaves nothing of it.
  idle-Interrupted :
      (c : Option ClaimResponse) (t : List Event)
      → Before request.phase c t
      → Interrupted request.phase t
  idle-Interrupted c t (sound, claim, idle, unsent, due) = (sound, rw idle (ground arith))

  -- A sweep after the claim, and then what follows it.
  swept-Ends :
      {B : Type 0} (c : Option ClaimResponse) (P : B → List Event → Type 0)
      (r : Result Thrown (Unit {0}) × List Event) (f : Act Event Thrown B)
      → Ends (λ o u. Before request.phase c u) (λ x u. Before request.phase c u) (λ u. ⊥) r
      → ((u : List Event)
          → Before request.phase c u
          → Ends P (λ x u. Interrupted request.phase u) (λ u. ⊥) (f u))
      → Ends P (λ x u. Interrupted request.phase u) (λ u. ⊥) (and_then r (λ o. f))
  swept-Ends c P r f before next =
      and_then-Ends (λ o u. Before request.phase c u) (λ x u. Interrupted request.phase u) (λ u. ⊥)
        P r (λ o. f)
        (Ends-weaken (λ o u. Before request.phase c u) (λ o u. Before request.phase c u)
          (λ x u. Before request.phase c u) (λ x u. Interrupted request.phase u) (λ u. ⊥) r
          (λ o u b. b) (λ x u b. idle-Interrupted c u b) before)
        (λ o u b. next u b)

  after_claim-Ends :
      (c : ClaimResponse) (t : List Event)
      → Before request.phase (some c) t
      → Ends
          (Returned request.phase)
          (λ x u. Interrupted request.phase u)
          (λ u. ⊥)
          (after_claim h fuel target request c t)
  after_claim-Ends (wait a message) t b = idle-Interrupted _ t b
  after_claim-Ends (skip a) t b =
      swept-Ends (some (skip a)) (Returned request.phase) _ (pure (succeeded a))
        (attempts-Ends h _ (Before-KeepsSweep request.phase (some (skip a))) t b)
        (λ u (sound, claim, idle, unsent, due). (sound, inl claim, rw idle refl))
  after_claim-Ends (halt a status message) t b =
      swept-Ends (some (halt a status message)) (Returned request.phase) _
        (pure (unsuccessful a status message none))
        (attempts-Ends h _ (Before-KeepsSweep request.phase (some (halt a status message))) t b)
        (λ u (sound, claim, idle, unsent, due). (sound, inl claim, rw idle refl))
  after_claim-Ends (run a) t b =
      swept-Ends (some (run a)) (Returned request.phase) _
        (attempt_phase h fuel target request runs a)
        (others-Ends h _ (Before-KeepsSweep request.phase (some (run a))) target
          (phase_name request.phase) t b)
        (attempt_phase-Ends runs a)
  after_claim-Ends (resume a) t b = attempt_phase-Ends resumes a t b

  claims-Ends :
      (jobs : List String) (t : List Event)
      → Before request.phase none t
      → Ends
          (Returned request.phase)
          (λ x u. Interrupted request.phase u)
          (λ u. ⊥)
          (and_then (claim_phase h fuel request.phase jobs t) (after_claim h fuel target request))
  claims-Ends jobs t b =
      and_then-Ends (λ c u. Before request.phase (some c) u) (λ x u. Interrupted request.phase u)
        (λ u. ⊥) (Returned request.phase) _ _
        (Ends-weaken (λ c u. Before request.phase (some c) u)
          (λ c u. Before request.phase (some c) u) (λ x u. Before request.phase none u)
          (λ x u. Interrupted request.phase u) (λ u. ⊥) _ (λ c u w. w)
          (λ x u w. idle-Interrupted none u w)
          (claim_phase-Ends h clock request.phase fuel jobs t b enough))
        after_claim-Ends

  phase-Ends :
      Ends
        (Returned request.phase)
        (λ x u. Interrupted request.phase u)
        (λ u. ⊥)
        (run_phase h fuel target request [])
  unfolding run_phase
  phase-Ends =
      let fresh : Before request.phase none (image_prepared ∷ []) = (tt, refl, refl, refl, refl) in
      and_then-Ends (λ o u. Before request.phase none u) (λ x u. Interrupted request.phase u)
        (λ u. ⊥) (Returned request.phase) _ _
        (call-Ends (λ o u. Before request.phase none u) (λ x u. Interrupted request.phase u)
          (λ u. ⊥) (h.prepare_image []) (image_prepared ∷ []) (λ o. fresh)
          (λ x. idle-Interrupted none (image_prepared ∷ []) fresh))
        (λ o u b.
          and_then-Ends (λ jobs u. Before request.phase none u) (λ x u. Interrupted request.phase u)
            (λ u. ⊥) (Returned request.phase) _ _
            (Ends-weaken (λ jobs u. Before request.phase none u)
              (λ jobs u. Before request.phase none u) (λ x u. Before request.phase none u)
              (λ x u. Interrupted request.phase u) (λ u. ⊥) _ (λ c u w. w)
              (λ x u w. idle-Interrupted none u w)
              (read-Ends h _ (Before-KeepsLook h request.phase none) target
                (phase_name request.phase) u b))
            claims-Ends)

-- How a phase ends, returned or thrown, but never without an end.
abbrev pub EndsSoundly : Host → ℕ → Target → Request → Type 0
EndsSoundly h fuel target request =
    Ends (Returned request.phase) (λ x u. Interrupted request.phase u) (λ u. ⊥)
      (run_phase h fuel target request [])

-- On a clock that never goes back, with container starts that are stamped with it, more fuel than the
-- retry budget and more than the timeout has milliseconds: whatever Docker and the control plane
-- answer, a phase ends with a sound history. Where it returns, its result rests on the claim's
-- answer or on an acknowledged report of that outcome, attempt and policy, and Docker was asked to
-- remove a container that was started, since its start. Where it throws, Docker was asked so for the
-- container of a verification that was started. Whether Docker did is not stated.
pub run_phase-EndsSoundly :
    (h : Host) (fuel : ℕ) (target : Target) (request : Request)
    → IsClock h
    → IsStamped h
    → 120000 < fuel
    → request.timeout_seconds * 1000 < fuel
    → EndsSoundly h fuel target request
run_phase-EndsSoundly h fuel target request clock stamped enough long =
    phase-Ends h clock stamped fuel target request enough long
