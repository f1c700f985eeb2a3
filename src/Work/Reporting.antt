-- ===== src/Work/Reporting.antt =====
-- `executeAndReportAgentWork` of agent/src/agent-work-reporting.ts. What is only logged leaves no
-- event. A result is any type, since the code only passes it on.
pub mod Laws
use Prim.Native.Nat.{zero, suc}
use nouva_agent.Prelude.{
  ℕ, ◌-◌, ◌*◌, ◌^◌, ◌==◌, leb, String, Bool, true, false, not, ◌&&◌, ◌||◌, Option, none, some, List,
  ◌∷◌, if◌then◌else◌,
}
use nouva_agent.Prelude.Effects.{
  Answer, value, failure, Act, pure, call, catching, ◌>>=◌, ◌>>◌, ok, throw,
}

pub data Report (R : Type 0) : Type 0 where
  complete : (result : R) → Report R
  fail : (result : R) (message : String) → Report R

pub data WorkOutcome (R : Type 0) : Type 0 where
  terminal : Report R → WorkOutcome R
  -- The control plane took the work back.
  released : (reason : String) → WorkOutcome R

-- An `ApiRequestError`, with its status, or any other error.
pub data Thrown : Type 0 where
  api : (status : ℕ) → Thrown
  other : Thrown

pub data Event (R : Type 0) : Type 0 where
  prepared lease_stopped : Event R
  -- A report, and how its sending failed.
  sent : Report R → Option Thrown → Event R
  slept : (ms : ℕ) → Event R
  asked_rejection : Event R

pub record Host (R : Type 0) : Type 0 where
  pub prepare : List (Event R) → Answer Thrown (WorkOutcome R)
  -- `none` when the report was accepted.
  pub send : List (Event R) → Report R → Option Thrown
  pub reject_result : List (Event R) → Answer Thrown (Report R)
  pub stop_lease : List (Event R) → Answer Thrown (Unit {0})

abbrev pub is_transient : Thrown → Bool
is_transient (api status) = leb 500 status || status == 408 || status == 429
is_transient other = true

abbrev pub is_complete : {R : Type 0} → Report R → Bool
is_complete (complete r) = true
is_complete (fail r m) = false

-- How a report's tries ended, with the flag `completionMayBeCommitted`.
pub record Delivery : Type 0 where
  pub may_be_committed : Bool
  pub error : Option Thrown

-- The flag after a try.
abbrev pub flag_after : {R : Type 0} → Report R → Bool → Option Thrown → Bool
flag_after report flag none = flag
flag_after report flag (some x) = flag || (is_transient x && is_complete report)

abbrev pub is_retried : Option Thrown → Bool
is_retried none = false
is_retried (some x) = is_transient x

abbrev pub is_422 : Option Thrown → Bool
is_422 none = false
is_422 (some (api status)) = status == 422
is_422 (some other) = false

-- A completed report was refused with 422, and no try of it may have committed it.
abbrev pub is_rejected : {R : Type 0} → Report R → Delivery → Bool
is_rejected report d = is_422 d.error && is_complete report && not d.may_be_committed

abbrev rethrow : {R : Type 0} → Option Thrown → Act (Event R) Thrown (Unit {0})
rethrow none = pure tt
rethrow (some x) = throw x

module _ {R : Type 0} (h : Host R) where
  abbrev pub send_once : Report R → Act (Event R) Thrown (Option Thrown)
  send_once report t = (ok (h.send t report), sent report (h.send t report) ∷ t)

  -- The tries of one report, with `left` more after this one: `sendWithRetry`, which starts with
  -- three more. The flag outlives an error, so the error is part of the value.
  unfoldable pub send_from : ℕ → Report R → Bool → Act (Event R) Thrown Delivery
  send_from zero report flag = do
    e ← send_once report
    pure (record { may_be_committed = flag_after report flag e; error = e })
  send_from (suc left) report flag =
      let again = λ (f : Bool). send_from left report f in
      do
        e ← send_once report
        if is_retried e
            then call (slept (1000 * 2 ^ (2 - left))) (λ _. value tt)
              >> again (flag_after report flag e)
            else pure (record { may_be_committed = flag_after report flag e; error = e })

  abbrev pub ask_rejection : Act (Event R) Thrown (Report R)
  ask_rejection = call asked_rejection h.reject_result

  -- What follows the tries of the first report. Any other failure is only logged.
  unfoldable pub after_delivery : Report R → Delivery → Act (Event R) Thrown (Unit {0})
  after_delivery report d =
      if is_rejected report d
      then (do
        other_report ← ask_rejection
        second ← send_from 3 other_report d.may_be_committed
        rethrow second.error)
      else pure tt

  abbrev pub report_outcome : WorkOutcome R → Act (Event R) Thrown (Unit {0})
  report_outcome (released reason) = pure tt
  report_outcome (terminal report) = do d ← send_from 3 report false; after_delivery report d

  -- What the `try` block of the function does; its `catch` only logs.
  unfoldable pub work_body : Act (Event R) Thrown (Unit {0})
  work_body = do outcome ← call prepared h.prepare; report_outcome outcome

  unfoldable pub execute_and_report_agent_work : Act (Event R) Thrown (Unit {0})
  execute_and_report_agent_work =
      catching work_body (λ x. pure tt) >> call lease_stopped h.stop_lease
