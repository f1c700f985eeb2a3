-- ===== src/Release/Runner/Laws/Outages.antt =====
-- A control plane that cannot be reached for a while, and what the calls of it throw.
use Prim.Native.Nat.{zero, suc}
use nouva_agent.Prelude.{
  ℕ, ◌≡◌, refl, ◌≤◌, ◌<◌, ◌+◌, ◌-◌, ◌*◌, ltb, min, ◌||◌, ◌&&◌, not, Bool, true, false, none, some,
  String, List, ◌∷◌, arith, Bool-cases, inl, inr,
}
use nouva_agent.Prelude.Effects.{Act, Answer, Answer-cases, value, failure, Ends, or_catch-Ends}
use nouva_agent.Release.Phases.{Phase, pre_activation}
use nouva_agent.Release.Claim.{ClaimResponse}
use nouva_agent.Release.Outside.{
  Event, slept, claimed, reported, Thrown, deferred, failed, Host, IsClock, Report,
}
use nouva_agent.Release.Runner.Laws.{call_control_plane-Ends}
use nouva_agent.Release.Runner.History.{last_claim, acknowledged}
use nouva_agent.Release.Runner.ControlPlane.{
  is_conflict, call_from, is_retryable, status_of, call_control_plane, claim_phase, claim_once,
  claim_answered, claim_give_up, report_outcome, report_once, report_answered,
  defer_while_unreachable,
}

module _ (h : Host) {A : Type 0} (try_once : Act Event Thrown A)
    (give_up : Thrown → Bool → Thrown) where
  -- While a try fails, it may be repeated until the budget runs out.
  call_from-recovers :
      (clock : IsClock h) (Q : A → List Event → Type 0) (fuel give_up_at delay : ℕ) (retried : Bool)
      (t : List Event)
      → ((u : List Event)
          → Ends Q
              (λ x v.
                (h.now u ≤ h.now v) × (is_retryable x ≡ true) × (h.now v + 30000 ≤ give_up_at))
              (λ v. ⊥)
              (try_once u))
      → suc (give_up_at - h.now t) ≤ fuel
      → 1 ≤ delay
      → delay ≤ 30000
      → Ends Q (λ x v. ⊥) (λ v. ⊥) (call_from h fuel try_once give_up give_up_at delay retried t)
  unfolding call_from
  call_from-recovers clock Q zero give_up_at delay retried t f enough low high = ground arith
  call_from-recovers clock Q (suc fuel) give_up_at delay retried t f enough low high =
      or_catch-Ends Q
        (λ x v. (h.now t ≤ h.now v) × (is_retryable x ≡ true) × (h.now v + 30000 ≤ give_up_at))
        (λ x v. ⊥) (λ v. ⊥) (try_once t) _ (f t)
        (λ x u (later, again, soon).
          let slow = clock.waits delay u in
          let goes_on : (not (is_retryable x) || ltb give_up_at (h.now u + delay)) ≡ false =
            ground arith in
          rw goes_on (
            call_from-recovers clock Q fuel give_up_at (min (delay * 2) 30000) true
              (slept delay ∷ u) f (ground arith) (ground arith) (ground arith)))

abbrev pub is_deferred : Thrown → Bool
is_deferred (deferred message) = true
is_deferred (failed status) = false

-- A deferral, or an answer that will not change.
abbrev pub IsFinal : Thrown → Type 0
IsFinal x = (is_deferred x || not (is_retryable x)) ≡ true

unreachable-IsFinal :
    (x : Thrown) (action : String) → IsFinal (defer_while_unreachable pre_activation x action)
unfolding defer_while_unreachable
unreachable-IsFinal x action = elim (Bool-cases (is_retryable x)) [
  | inl again ↦ rw again refl
  | inr over ↦ rw over (ground arith)
]

claim-IsFinal : (x : Thrown) (retried : Bool) → IsFinal (claim_give_up pre_activation x retried)
unfolding claim_give_up
claim-IsFinal x retried = elim (Bool-cases (retried && is_conflict (status_of x))) [
  | inl lost ↦ rw lost refl
  | inr other ↦ rw other (unreachable-IsFinal x "claim")
]

module _ (h : Host) (clock : IsClock h) where
  claimed-Throws :
      (jobs : List String) (a : Answer Thrown ClaimResponse) (u : List Event)
      → Ends
          (λ c v. last_claim v ≡ some c)
          (λ x v. Unit {0} × (h.now u ≤ h.now v))
          (λ v. ⊥)
          (claim_answered h jobs a u)
  claimed-Throws jobs (value c) u = refl
  claimed-Throws jobs (failure x) u = (tt, clock.onward _ u)

  reported-Throws :
      (r : Report) (a : Answer Thrown (Unit {0})) (u : List Event)
      → Ends
          (λ o v. acknowledged v ≡ some r)
          (λ x v. Unit {0} × (h.now u ≤ h.now v))
          (λ v. ⊥)
          (report_answered h r a u)
  reported-Throws r (value c) u = refl
  reported-Throws r (failure x) u = (tt, clock.onward _ u)

-- On a clock that never goes back and more fuel than the retry budget, whatever the control plane
-- answers: the claim and the report of a pre-activation job end. The claim returns what was answered
-- last, the report returns acknowledged, and what either throws is a deferral, so that the work is
-- handed out again, or an error that a repeat would not change.
pub give_ups-IsFinal :
    (h : Host) (fuel : ℕ) (jobs : List String) (r : Report) (t : List Event)
    → IsClock h
    → 120000 < fuel
    → Ends
        (λ c v. last_claim v ≡ some c)
        (λ x v. IsFinal x)
        (λ v. ⊥)
        (claim_phase h fuel pre_activation jobs t)
      × Ends
          (λ o v. acknowledged v ≡ some r)
          (λ x v. IsFinal x)
          (λ v. ⊥)
          (report_outcome h fuel pre_activation r t)
unfolding claim_phase report_outcome claim_once report_once
give_ups-IsFinal h fuel jobs r t clock enough = (
  call_control_plane-Ends h clock (λ u. Unit {0}) (λ c v. last_claim v ≡ some c) (λ x v. IsFinal x)
      (claim_once h jobs) (claim_give_up pre_activation)
      (λ u o. claimed-Throws h clock jobs (h.claim u jobs) u) (λ ms u o. tt)
      (λ x again u o. claim-IsFinal x again) fuel t tt enough,
  call_control_plane-Ends h clock (λ u. Unit {0}) (λ o v. acknowledged v ≡ some r)
      (λ x v. IsFinal x) (report_once h r)
      (λ x retried. defer_while_unreachable pre_activation x "report the outcome of")
      (λ u o. reported-Throws h clock r (h.report u r) u) (λ ms u o. tt)
      (λ x again u o. unreachable-IsFinal x "report the outcome of") fuel t tt enough,
)

-- Every failure of a claim, and of the report `r`, is one to repeat, and is over by `until`.
pub record IsOutage (h : Host) (jobs : List String) (r : Report) (until : ℕ) : Type 0 where
  pub claim_fails :
      (u : List Event) (x : Thrown)
      → h.claim u jobs ≡ failure x
      → (is_retryable x ≡ true) × (h.now (claimed jobs none ∷ u) ≤ until)
  pub report_fails :
      (u : List Event) (x : Thrown)
      → h.report u r ≡ failure x
      → (is_retryable x ≡ true) × (h.now (reported r false ∷ u) ≤ until)

module _ (h : Host) (clock : IsClock h) (p : Phase) (jobs : List String) (r : Report)
    (fuel until : ℕ) (outage : IsOutage h jobs r until) where
  claim-recovers :
      (t : List Event)
      → until ≤ h.now t + 90000
      → 120000 < fuel
      → Ends (λ c v. last_claim v ≡ some c) (λ x v. ⊥) (λ v. ⊥) (claim_phase h fuel p jobs t)
  unfolding claim_phase call_control_plane claim_once
  claim-recovers t soon enough =
      call_from-recovers h (claim_once h jobs) (claim_give_up p) clock
        (λ c v. last_claim v ≡ some c) fuel (h.now t + 120000) 2000 false t
        (λ u. elim (Answer-cases (h.claim u jobs)) [
          | inl (c, e) ↦ rw e refl
          | inr (x, e) ↦
              let (again, over) = outage.claim_fails u x e in
              let on = clock.onward (claimed jobs none) u in rw e (on, again, ground arith)
        ])
        (ground arith) (ground arith) (ground arith)

  report-recovers :
      (t : List Event)
      → until ≤ h.now t + 90000
      → 120000 < fuel
      → Ends (λ o v. acknowledged v ≡ some r) (λ x v. ⊥) (λ v. ⊥) (report_outcome h fuel p r t)
  unfolding report_outcome call_control_plane report_once
  report-recovers t soon enough =
      call_from-recovers h (report_once h r)
        (λ x retried. defer_while_unreachable p x "report the outcome of") clock
        (λ o v. acknowledged v ≡ some r) fuel (h.now t + 120000) 2000 false t
        (λ u. elim (Answer-cases (h.report u r)) [
          | inl (o, e) ↦ rw e refl
          | inr (x, e) ↦
              let (again, over) = outage.report_fails u x e in
              let on = clock.onward (reported r false) u in rw e (on, again, ground arith)
        ])
        (ground arith) (ground arith) (ground arith)

-- On a clock that never goes back and more fuel than the retry budget: an outage of the control
-- plane that is over within 90 seconds of the call is ridden out. The claim returns what the control
-- plane answered last, and the report returns acknowledged.
pub outage_ridden_out :
    (h : Host) (p : Phase) (jobs : List String) (r : Report) (fuel until : ℕ) (t : List Event)
    → IsClock h
    → IsOutage h jobs r until
    → until ≤ h.now t + 90000
    → 120000 < fuel
    → Ends (λ c v. last_claim v ≡ some c) (λ x v. ⊥) (λ v. ⊥) (claim_phase h fuel p jobs t)
      × Ends (λ o v. acknowledged v ≡ some r) (λ x v. ⊥) (λ v. ⊥) (report_outcome h fuel p r t)
outage_ridden_out h p jobs r fuel until t clock outage soon enough = (
  claim-recovers h clock p jobs r fuel until outage t soon enough,
  report-recovers h clock p jobs r fuel until outage t soon enough,
)
