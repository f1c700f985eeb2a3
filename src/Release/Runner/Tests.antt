-- ===== src/Release/Runner/Tests.antt =====
-- A phase on a host whose control plane comes back after four seconds.
use nouva_agent.Prelude.{
  ℕ, ◌≡◌, refl, ◌≤◌, ◌+◌, ltb, Bool, true, false, Option, none, some, String, List, [], ◌∷◌, arith,
  if◌then◌else◌,
}
use nouva_agent.Prelude.Number.{of_ℕ}
use nouva_agent.Prelude.Effects.{Answer, value, failure, Ends}
use nouva_agent.Release.Phases.{pre_activation, Outcome}
use nouva_agent.Release.Claim.{ClaimResponse, run}
use nouva_agent.Release.Jobs.{Target}
use nouva_agent.Release.Outside.{
  Container, Event, listed, stopped, inspected, removed, image_prepared, claimed, reported,
  policy_resolved, created_own, started_own, inspected_own, stopped_own, removed_own, logs_read,
  Host, IsClock, IsStamped, Report, Thrown, failed, deferred, slept, read_started_at_ms,
}
use nouva_agent.Release.Recovery.{read_timestamp_ms}
use nouva_agent.Release.Runner.Attempt.{Request}
use nouva_agent.Release.Runner.ControlPlane.{claim_phase, report_outcome, is_retryable}
use nouva_agent.Release.Runner.History.{last_claim, acknowledged}
use nouva_agent.Release.Runner.Laws.Phases.{EndsSoundly, run_phase-EndsSoundly}
use nouva_agent.Release.Runner.Laws.Outages.{IsFinal, give_ups-IsFinal, IsOutage, outage_ridden_out}

abbrev elapsed : List Event → ℕ
elapsed [] = 0
elapsed (slept ms ∷ t) = elapsed t + ms
elapsed (_ ∷ t) = elapsed t

abbrev finished : Container
finished = record {
  id = "c1";
  running = some false;
  status = some "exited";
  exit_code = some 0;
  started_at = none;
  finished_at = none;
  deployment_id = some "d1";
  phase = some "pre_activation";
  timeout_seconds = of_ℕ 60;
}

abbrev claim_answer : Bool → Answer Thrown ClaimResponse
claim_answer true = failure (failed (some 502))
claim_answer false = value (run 1)

abbrev host : Host
host = record {
  list_service_jobs = λ t. value [];
  list_attempts = λ t. value (finished ∷ []);
  stop = λ t id. value tt;
  inspect = λ t id. value (some finished);
  remove = λ t id. value tt;
  prepare_image = λ t. value tt;
  claim = λ t jobs. claim_answer (ltb (elapsed t) 4000);
  report = λ t r. value tt;
  resolve_policy = λ t o. value none;
  create_own = λ t spec. value tt;
  start_own = λ t. value tt;
  inspect_own = λ t. value (some finished);
  stop_own = λ t. value tt;
  remove_own = λ t. failure (failed none);
  read_logs = λ t. value tt;
  has_build_log = true;
  now = elapsed;
  date_parse = λ s. none;
  error_text = λ x. "error";
}

elapsed-onward : (e : Event) (t : List Event) → elapsed t ≤ elapsed (e ∷ t)
elapsed-onward (listed cs) t = ground arith
elapsed-onward (stopped c) t = ground arith
elapsed-onward (inspected c) t = ground arith
elapsed-onward (removed c) t = ground arith
elapsed-onward image_prepared t = ground arith
elapsed-onward (claimed jobs a) t = ground arith
elapsed-onward (reported r b) t = ground arith
elapsed-onward policy_resolved t = ground arith
elapsed-onward (slept ms) t = ground arith
elapsed-onward (created_own a spec) t = ground arith
elapsed-onward started_own t = ground arith
elapsed-onward inspected_own t = ground arith
elapsed-onward stopped_own t = ground arith
elapsed-onward removed_own t = ground arith
elapsed-onward logs_read t = ground arith

host-IsClock : IsClock host
host-IsClock = record { onward = elapsed-onward; waits = λ ms t. ground arith }

unread : (b : Bool) (at : ℕ) → (if b then none else none) ≡ some at → ⊥
unread true at e = ground arith
unread false at e = ground arith

unread-stamp : (s : Option String) (at : ℕ) → read_timestamp_ms host.date_parse s ≡ some at → ⊥
unfolding read_timestamp_ms
unread-stamp none at e = ground arith
unread-stamp (some s) at e = unread _ at e

unstamped : (c : Option Container) (at : ℕ) → read_started_at_ms host.date_parse c ≡ some at → ⊥
unfolding read_started_at_ms
unstamped none at e = ground arith
unstamped (some c) at e = unread-stamp c.started_at at e

host-IsStamped : IsStamped host
host-IsStamped = record { stamped = λ t c at e f. absurd (unstamped c at f) }

abbrev target : Target
target = record {
  service_id = "service-1";
  deployment_id = "d1";
  image = "registry/app:1";
  network_name = "project";
  env_vars = [];
  labels = [];
  resource_settings = record {
    nano_cpus = 500000000;
    memory = 1024;
    memory_swap = 1024;
    pids_limit = 64;
  };
}

abbrev request : Request
request = record {
  phase = pre_activation;
  command = "migrate";
  timeout_seconds = 60;
  phase_env = [];
  configured_policy = none;
}

run_phase-EndsSoundly_example : EndsSoundly host 120001 target request
run_phase-EndsSoundly_example =
    run_phase-EndsSoundly host 120001 target request host-IsClock host-IsStamped (ground arith)
      (ground arith)

abbrev success : Report
success = record {
  attempt = 1;
  outcome = Outcome.succeeded;
  exit_code = some 0;
  started_at = none;
  finished_at_ms = 4000;
  applied_policy = none;
}

give_ups-IsFinal_example :
    Ends
      (λ c v. last_claim v ≡ some c)
      (λ x v. IsFinal x)
      (λ v. ⊥)
      (claim_phase host 120001 pre_activation [] [])
    × Ends
        (λ o v. acknowledged v ≡ some success)
        (λ x v. IsFinal x)
        (λ v. ⊥)
        (report_outcome host 120001 pre_activation success [])
give_ups-IsFinal_example = give_ups-IsFinal host 120001 [] success [] host-IsClock (ground arith)

claim_answer-retryable :
    (b : Bool) (x : Thrown) → claim_answer b ≡ failure x → (is_retryable x ≡ true) × (b ≡ true)
claim_answer-retryable true (failed none) e = (refl, refl)
claim_answer-retryable true (failed (some status)) e = (ground arith, refl)
claim_answer-retryable true (deferred message) e = (refl, refl)
claim_answer-retryable false x e = ground arith

outage : IsOutage host [] success 4000
outage = record {
  claim_fails = λ u x e.
      let (again, early) = claim_answer-retryable (ltb (elapsed u) 4000) x e in
      (again, ground arith);
  report_fails = λ u x e. ground arith;
}

outage_ridden_out_example :
    Ends
      (λ c v. last_claim v ≡ some c)
      (λ x v. ⊥)
      (λ v. ⊥)
      (claim_phase host 120001 pre_activation [] [])
    × Ends
        (λ o v. acknowledged v ≡ some success)
        (λ x v. ⊥)
        (λ v. ⊥)
        (report_outcome host 120001 pre_activation success [])
outage_ridden_out_example =
    outage_ridden_out host pre_activation [] success 120001 4000 [] host-IsClock outage
      (ground arith) (ground arith)
