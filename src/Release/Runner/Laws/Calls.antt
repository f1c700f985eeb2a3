-- ===== src/Release/Runner/Laws/Calls.antt =====
-- Claims and reports, and what their histories hold at the end.
use nouva_agent.Prelude.{ℕ, ◌≡◌, refl, ◌≤◌, ◌<◌, false, Option, none, some, String, List}
use nouva_agent.Prelude.Effects.{Answer, value, failure, Ends, Ends-weaken}
use nouva_agent.Release.Phases.{Phase}
use nouva_agent.Release.Claim.{ClaimResponse}
use nouva_agent.Release.Outside.{Event, Thrown, Host, IsClock, Report}
use nouva_agent.Release.Runner.ControlPlane.{
  claim_once, claim_answered, claim_phase, claim_give_up, report_once, report_answered,
  report_outcome, defer_while_unreachable,
}
use nouva_agent.Release.Runner.History.{
  last_claim, has_started, last_report, acknowledged, claimed_attempt, Agrees, IsSound,
}
use nouva_agent.Release.Runner.Laws.{call_control_plane-Ends}

-- A phase whose claim is `c`, before its container is started.
abbrev pub Before : Phase → Option ClaimResponse → List Event → Type 0
Before p c t =
    IsSound p t
    × (last_claim t ≡ c)
    × (has_started t ≡ false)
    × (last_report t ≡ none)
    × (acknowledged t ≡ none)

-- A phase that claimed `c` and has not reported.
abbrev pub During : Phase → Option ClaimResponse → List Event → Type 0
During p c t = IsSound p t × (last_claim t ≡ c) × (last_report t ≡ none) × (acknowledged t ≡ none)

abbrev pub Sending : Phase → Option ClaimResponse → Report → List Event → Type 0
Sending p c r t =
    IsSound p t × (last_claim t ≡ c) × Agrees r (last_report t) × (acknowledged t ≡ none)

abbrev pub Sent : Phase → Option ClaimResponse → Report → List Event → Type 0
Sent p c r t = IsSound p t × (last_claim t ≡ c) × (acknowledged t ≡ some r)

module _ (h : Host) (clock : IsClock h) (p : Phase) where
  answered-Ends :
      (jobs : List String) (a : Answer Thrown ClaimResponse) (t : List Event)
      → Before p none t
      → Ends
          (λ c u. Before p (some c) u)
          (λ x u. Before p none u × (h.now t ≤ h.now u))
          (λ u. ⊥)
          (claim_answered h jobs a t)
  answered-Ends jobs (value c) t (sound, unclaimed, s, l, k) = ((unclaimed, sound), refl, s, l, k)
  answered-Ends jobs (failure x) t (sound, unclaimed, s, l, k) =
      (((unclaimed, sound), unclaimed, s, l, k), clock.onward _ t)

  pub claim_phase-Ends :
      (fuel : ℕ) (jobs : List String) (t : List Event)
      → Before p none t
      → 120000 < fuel
      → Ends
          (λ c u. Before p (some c) u)
          (λ x u. Before p none u)
          (λ u. ⊥)
          (claim_phase h fuel p jobs t)
  unfolding claim_phase claim_once
  claim_phase-Ends fuel jobs t before enough =
      call_control_plane-Ends h clock (Before p none) (λ c u. Before p (some c) u)
        (λ x u. Before p none u) (claim_once h jobs) (claim_give_up p)
        (λ u b. answered-Ends jobs (h.claim u jobs) u b) (λ ms u b. b) (λ x again u b. b) fuel t
        before enough

  reported-Ends :
      (c : Option ClaimResponse) (r : Report) (a : Answer Thrown (Unit {0})) (t : List Event)
      → claimed_attempt c ≡ some r.attempt
      → Sending p c r t
      → Ends
          (λ o u. Sent p c r u)
          (λ x u. Sending p c r u × (h.now t ≤ h.now u))
          (λ u. ⊥)
          (report_answered h r a t)
  reported-Ends c r (value o) t own (sound, claim, agrees, due) =
      ((rw claim own, agrees, due, sound), claim, refl)
  reported-Ends c r (failure x) t own (sound, claim, agrees, due) =
      (((rw claim own, agrees, due, sound), claim, refl, due), clock.onward _ t)

  pub report_outcome-Ends :
      (fuel : ℕ) (c : Option ClaimResponse) (r : Report) (t : List Event)
      → claimed_attempt c ≡ some r.attempt
      → During p c t
      → 120000 < fuel
      → Ends (λ o u. Sent p c r u) (λ x u. IsSound p u) (λ u. ⊥) (report_outcome h fuel p r t)
  unfolding report_outcome report_once
  report_outcome-Ends fuel c r t own (sound, claim, unsent, due) enough =
      Ends-weaken (λ o u. Sent p c r u) (λ o u. Sent p c r u) (λ x u. Sending p c r u)
        (λ x u. IsSound p u) (λ u. ⊥) _ (λ o u s. s) (λ x u (s, c, g, d). s)
        (call_control_plane-Ends h clock (Sending p c r) (λ o u. Sent p c r u)
          (λ x u. Sending p c r u) (report_once h r)
          (λ x retried. defer_while_unreachable p x "report the outcome of")
          (λ u s. reported-Ends c r (h.report u r) u own s) (λ ms u s. s) (λ x again u s. s) fuel t
          (sound, claim, rw unsent tt, due) enough)
