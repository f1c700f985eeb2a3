-- ===== src/Release/Runner/Laws/Reports.antt =====
-- From a begun attempt to its report, and what its history holds at the end.
use Prim.Native.Nat.{zero, suc}
use nouva_agent.Prelude.{
  ℕ, ◌≡◌, refl, ◌≤◌, ◌<◌, ◌+◌, ◌-◌, ◌*◌, leb, min, Bool, false, Option, none, some, String, List,
  ◌∷◌, arith, Bool-cases, inl, inr,
}
use nouva_agent.Release.Runner.ControlPlane.{report_outcome}
use nouva_agent.Prelude.Effects.{
  ◌>>=◌, Act, Ends, and_then-Ends, call-Ends, Answer-cases, Ends-weaken, ◌>>=◌,
}
use nouva_agent.Release.Phases.{Phase, Outcome, Policy}
use nouva_agent.Release.Claim.{ClaimResponse}
use nouva_agent.Release.Recovery.{Observation, missing, created, running, exited}
use nouva_agent.Release.Jobs.{Target}
use nouva_agent.Release.Outside.{
  Event, inspected_own, stopped_own, slept, Thrown, Host, IsClock, IsStamped, Report,
  observe_container,
}
use nouva_agent.Release.Runner.Attempt.{
  Begun, awaits, start_failed, over, Request, Decision, Reported, begin_attempt, await_exit,
  on_look, after_look, ship_logs, resolve_policy, send_report, conclude, finish, attempt_and_report,
  outcome_of_exit, exit_code_of, started_of,
}
use nouva_agent.Release.Runner.History.{claimed_attempt, IsSound}
use nouva_agent.Release.Runner.Laws.Calls.{Before, During, Sent, report_outcome-Ends}
use nouva_agent.Release.Runner.Laws.Attempts.{BegunBy, begin_attempt-Ends, claim_of}

abbrev pub HasSent : Phase → Option ClaimResponse → ℕ → Reported → List Event → Type 0
HasSent p c a r t = Sent p c r.report t × (r.report.attempt ≡ a)

module _ (h : Host) (clock : IsClock h) (p : Phase) (c : Option ClaimResponse) where
  -- Looking after the attempt until it is over.
  after_look-Ends :
      (deadline : ℕ) (again : Act Event Thrown (Observation × Bool)) (t : List Event)
      → During p c t
      → ((ms : ℕ)
          → ms ≡ min 1000 (deadline - h.now t)
          → h.now t < deadline
          → Ends (λ e u. During p c u) (λ x u. During p c u) (λ u. ⊥) (again (slept ms ∷ t)))
      → Ends (λ e u. During p c u) (λ x u. During p c u) (λ u. ⊥) (after_look h deadline again t)
  after_look-Ends deadline again t d more = elim (Bool-cases (leb deadline (h.now t))) [
    | inr early ↦ rw early (more (min 1000 (deadline - h.now t)) refl (ground arith))
    | inl late ↦ elim (Answer-cases (h.stop_own t)) [
      | inr (x, e) ↦ rw (late, e) d
      | inl (o, e) ↦ elim (Answer-cases (h.inspect_own (stopped_own ∷ t))) [
        | inr (x, f) ↦ rw (late, e, f) d
        | inl (k, f) ↦ rw (late, e, f) d
      ]
    ]
  ]

  on_look-Ends :
      (deadline : ℕ) (again : Act Event Thrown (Observation × Bool)) (o : Observation)
      (t : List Event)
      → During p c t
      → ((ms : ℕ)
          → ms ≡ min 1000 (deadline - h.now t)
          → h.now t < deadline
          → Ends (λ e u. During p c u) (λ x u. During p c u) (λ u. ⊥) (again (slept ms ∷ t)))
      → Ends (λ e u. During p c u) (λ x u. During p c u) (λ u. ⊥) (on_look h deadline again o t)
  on_look-Ends deadline again missing t d more = d
  on_look-Ends deadline again (exited code s f) t d more = d
  on_look-Ends deadline again created t d more = after_look-Ends deadline again t d more
  on_look-Ends deadline again running t d more = after_look-Ends deadline again t d more

  await_exit-Ends :
      (fuel deadline : ℕ) (t : List Event)
      → During p c t
      → suc (deadline - h.now t) ≤ fuel
      → Ends (λ e u. During p c u) (λ x u. During p c u) (λ u. ⊥) (await_exit h fuel deadline t)
  unfolding await_exit
  await_exit-Ends zero deadline t d enough = ground arith
  await_exit-Ends (suc fuel) deadline t d enough = elim (Answer-cases (h.inspect_own t)) [
    | inr (x, e) ↦ rw e d
    | inl (k, e) ↦
        let on = clock.onward inspected_own t in
        rw e (
          on_look-Ends deadline (await_exit h fuel deadline) (observe_container k)
            (inspected_own ∷ t) d
            (λ ms m early.
              let slow = clock.waits ms (inspected_own ∷ t) in
              await_exit-Ends fuel deadline (slept ms ∷ inspected_own ∷ t) d (ground arith)))
  ]

  ship_logs-Ends :
      (o : Observation) (t : List Event)
      → During p c t
      → Ends (λ e u. During p c u) (λ x u. ⊥) (λ u. ⊥) (ship_logs h o t)
  unfolding ship_logs
  ship_logs-Ends missing t d = d
  ship_logs-Ends created t d = d
  ship_logs-Ends running t d = d
  ship_logs-Ends (exited code s f) t d = elim (Bool-cases h.has_build_log) [
    | inr quiet ↦ rw quiet d
    | inl shipped ↦ elim (Answer-cases (h.read_logs t)) [
      | inl (o, e) ↦ rw (shipped, e) d
      | inr (x, e) ↦ rw (shipped, e) d
    ]
  ]

  resolve_policy-Ends :
      (o : Outcome) (t : List Event)
      → During p c t
      → Ends (λ e u. During p c u) (λ x u. During p c u) (λ u. ⊥) (resolve_policy h o t)
  unfolding resolve_policy
  resolve_policy-Ends Outcome.succeeded t d = d
  resolve_policy-Ends Outcome.failed t d =
      call-Ends (λ e u. During p c u) (λ x u. During p c u) (λ u. ⊥) _ _ (λ e. d) (λ x. d)
  resolve_policy-Ends Outcome.timed_out t d =
      call-Ends (λ e u. During p c u) (λ x u. During p c u) (λ u. ⊥) _ _ (λ e. d) (λ x. d)
  resolve_policy-Ends Outcome.outcome_unknown t d =
      call-Ends (λ e u. During p c u) (λ x u. During p c u) (λ u. ⊥) _ _ (λ e. d) (λ x. d)

  module _ (fuel : ℕ) (a : ℕ) (own : claimed_attempt c ≡ some a) (enough : 120000 < fuel) where
    send_report-Ends :
        (o : Outcome) (code : Option ℕ) (s : Option String) (policy : Option Policy)
        (x : Option Thrown) (t : List Event)
        → During p c t
        → Ends
            (HasSent p c a)
            (λ x u. IsSound p u)
            (λ u. ⊥)
            (send_report h fuel p a o code s policy x t)
    send_report-Ends o code s policy x t d =
        let r : Report = record {
          attempt = a;
          outcome = o;
          exit_code = code;
          started_at = s;
          finished_at_ms = h.now t;
          applied_policy = policy;
        } in
        and_then-Ends (λ e u. Sent p c r u) (λ x u. IsSound p u) (λ u. ⊥) (HasSent p c a)
          (report_outcome h fuel p r t) _ (report_outcome-Ends h clock p fuel c r t own d enough)
          (λ e u v. (v, refl))

module _ (h : Host) (clock : IsClock h) (c : Option ClaimResponse) (request : Request) (fuel a : ℕ)
    (own : claimed_attempt c ≡ some a) (enough : 120000 < fuel) where
  conclude-Ends :
      (o : Observation) (stopped : Bool) (t : List Event)
      → During request.phase c t
      → Ends
          (HasSent request.phase c a)
          (λ x u. IsSound request.phase u)
          (λ u. ⊥)
          (conclude h fuel request a (o, stopped) t)
  unfolding conclude
  conclude-Ends o stopped t d =
      let result = outcome_of_exit h request o stopped in
      let sent = λ (policy : Option Policy).
        send_report h fuel request.phase a result (exit_code_of o) (started_of o) policy none in
      and_then-Ends (λ e u. During request.phase c u) (λ x u. IsSound request.phase u) (λ u. ⊥)
        (HasSent request.phase c a) (ship_logs h o t) (λ e. resolve_policy h result >>= sent)
        (Ends-weaken (λ e u. During request.phase c u) (λ e u. During request.phase c u) (λ x u. ⊥)
          (λ x u. IsSound request.phase u) (λ u. ⊥) (ship_logs h o t) (λ e u v. v)
          (λ x u v. absurd v) (ship_logs-Ends h clock request.phase c o t d))
        (λ e u v.
          and_then-Ends (λ e u. During request.phase c u) (λ x u. IsSound request.phase u) (λ u. ⊥)
            (HasSent request.phase c a) (resolve_policy h result u) sent
            (Ends-weaken (λ e u. During request.phase c u) (λ e u. During request.phase c u)
              (λ x u. During request.phase c u) (λ x u. IsSound request.phase u) (λ u. ⊥)
              (resolve_policy h result u) (λ e u w. w) (λ x u (w, claim, unsent, due). w)
              (resolve_policy-Ends h clock request.phase c result u v))
            (λ policy u' w.
              send_report-Ends h clock request.phase c fuel a own enough result _ _ policy none u'
                w))

  finish-Ends :
      (b : Begun) (t : List Event)
      → request.timeout_seconds * 1000 < fuel
      → During request.phase c t
      → BegunBy (h.now t) b
      → Ends
          (HasSent request.phase c a)
          (λ x u. IsSound request.phase u)
          (λ u. ⊥)
          (finish h fuel request a b t)
  finish-Ends (start_failed x) t long d on =
      send_report-Ends h clock request.phase c fuel a own enough _ _ _ _ (some x) t d
  finish-Ends (over o) t long d on = conclude-Ends o false t d
  finish-Ends (awaits at) t long d on =
      and_then-Ends (λ e u. During request.phase c u) (λ x u. IsSound request.phase u) (λ u. ⊥)
        (HasSent request.phase c a) (await_exit h fuel (at + request.timeout_seconds * 1000) t)
        (conclude h fuel request a)
        (Ends-weaken (λ e u. During request.phase c u) (λ e u. During request.phase c u)
          (λ x u. During request.phase c u) (λ x u. IsSound request.phase u) (λ u. ⊥)
          (await_exit h fuel (at + request.timeout_seconds * 1000) t) (λ e u w. w)
          (λ x u (w, claim, unsent, due). w)
          (await_exit-Ends h clock request.phase c fuel (at + request.timeout_seconds * 1000) t d
            (ground arith)))
        (λ (o, stopped) u w. conclude-Ends o stopped u w)

  pub attempt_and_report-Ends :
      (stamped : IsStamped h) (target : Target) (d : Decision) (name : String) (t : List Event)
      → c ≡ some (claim_of d a)
      → request.timeout_seconds * 1000 < fuel
      → Before request.phase c t
      → Ends
          (HasSent request.phase c a)
          (λ x u. IsSound request.phase u)
          (λ u. ⊥)
          (attempt_and_report h fuel target request d name a t)
  unfolding attempt_and_report
  attempt_and_report-Ends stamped target d name t same long b =
      and_then-Ends (λ b u. During request.phase c u × BegunBy (h.now u) b)
        (λ x u. IsSound request.phase u) (λ u. ⊥) (HasSent request.phase c a)
        (begin_attempt h target request d name a t) (finish h fuel request a)
        (Ends-weaken (λ b u. During request.phase c u × BegunBy (h.now u) b)
          (λ b u. During request.phase c u × BegunBy (h.now u) b) (λ x u. During request.phase c u)
          (λ x u. IsSound request.phase u) (λ u. ⊥) (begin_attempt h target request d name a t)
          (λ e u w. w) (λ x u (w, claim, unsent, due). w)
          (begin_attempt-Ends h clock stamped request.phase c target request d name a t same b))
        (λ b u (w, on). finish-Ends b u long w on)
