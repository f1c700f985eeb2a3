-- ===== src/Release/Runner/Attempt.antt =====
-- One attempt of a phase: `createJobContainer`, `startAttempt`, `awaitExit`, `shipLogs` and
-- `attemptAndReport` of agent/src/release-jobs.ts. What is logged leaves no event.
use Prim.Native.Nat.{zero, suc}
use nouva_agent.Prelude.{
  ℕ, ◌+◌, ◌-◌, ◌*◌, leb, min, String, str_eq, ◌<>◌, utf16_length, ◌==◌, decimal, take_chars, Bool,
  true, false, ◌||◌, Option, none, some, List, [], ◌∷◌, map, if◌then◌else◌, get_or_else,
}
use nouva_agent.Prelude.Effects.{Act, pure, throw, no_fuel, call, value, catching, ◌>>=◌, ◌>>◌}
use nouva_agent.Release.Phases.{Phase, pre_activation, verification, Policy, keep, Outcome}
use nouva_agent.Release.Recovery.{
  Observation, missing, created, running, exited, Recovery, start, wait, save, declare_unknown,
  classify_release_job_exit, decide_release_job_recovery,
}
use nouva_agent.Release.Jobs.{Target, remove_settled_attempts}
use nouva_agent.Release.Outside.{
  Container, Spec, Report, Thrown, Event, created_own, started_own, inspected_own, stopped_own,
  logs_read, policy_resolved, slept, Host, observe_container, read_started_at_ms,
}
use nouva_agent.Release.Runner.ControlPlane.{clock, report_outcome}

-- The request of a phase. The resolver of its applied policy is the host's.
pub record Request : Type 0 where
  pub phase : Phase
  pub command : String
  pub timeout_seconds : ℕ
  pub phase_env : List (String × String)
  pub configured_policy : Option Policy

abbrev pub phase_name : Phase → String
phase_name pre_activation = "pre_activation"
phase_name verification = "verification"

abbrev short_phase : Phase → String
short_phase pre_activation = "pre"
short_phase verification = "verify"

unfoldable pub build_release_job_container_name : String → String → Phase → ℕ → String
build_release_job_container_name service deployment phase attempt =
    "nouva-release-"
    <> (take_chars 8 service
        <> ("-"
            <> (take_chars 8 deployment
                <> ("-" <> (short_phase phase <> ("-" <> decimal attempt))))))

-- `{ ...entries, [key]: value }`: a key keeps its place, and the new value counts.
unfoldable pub with_entry : String → String → List (String × String) → List (String × String)
with_entry key new [] = (key, new) ∷ []
with_entry key new ((k, v) ∷ rest) =
    if str_eq k key then (key, new) ∷ rest else (k, v) ∷ with_entry key new rest

unfoldable pub spread : List (String × String) → List (String × String) → List (String × String)
unfolding with_entry
spread entries [] = entries
spread entries ((k, v) ∷ rest) = spread (with_entry k v entries) rest

abbrev assignment : String × String → String
assignment (k, v) = k <> ("=" <> v)

unfoldable pub job_spec : Target → Request → String → ℕ → Spec
unfolding spread
job_spec target request name attempt = record {
  name = name;
  image = target.image;
  env = map assignment (
      spread (spread target.env_vars request.phase_env) (
        ("NOUVA_RELEASE_PHASE", phase_name request.phase)
        ∷ ("NOUVA_DEPLOYMENT_ID", target.deployment_id)
        ∷ []));
  command = request.command;
  labels = spread target.labels (
      ("nouva.kind", "release_job")
      ∷ ("nouva.service.id", target.service_id)
      ∷ ("nouva.deployment.id", target.deployment_id)
      ∷ ("nouva.release.phase", phase_name request.phase)
      ∷ ("nouva.release.attempt", decimal attempt)
      ∷ ("nouva.release.timeout_seconds", decimal request.timeout_seconds)
      ∷ []);
  network = target.network_name;
  resources = target.resource_settings;
}

-- What `startAttempt` says.
pub data Started : Type 0 where
  began : (at_ms : ℕ) → Started
  not_started : Thrown → Started

-- How an attempt goes on once it is begun.
pub data Begun : Type 0 where
  start_failed : Thrown → Begun
  awaits : (started_at_ms : ℕ) → Begun
  over : Observation → Begun

pub data Decision : Type 0 where
  runs resumes : Decision

-- What was reported.
pub record Reported : Type 0 where
  pub report : Report
  pub start_failure : Option Thrown

abbrev pub to_begun : Started → Begun
to_begun (began at) = awaits at
to_begun (not_started x) = start_failed x

abbrev is_exited : Observation → Bool
is_exited (exited code started finished) = true
is_exited _ = false

abbrev is_running_now : Observation → Bool
is_running_now running = true
is_running_now _ = false

abbrev has_value {ℓ} : {A : Type ℓ} → Option A → Bool
has_value none = false
has_value (some a) = true

abbrev pub exit_code_of : Observation → Option ℕ
exit_code_of (exited code started finished) = some code
exit_code_of _ = none

abbrev filled : Option String → Option String
filled none = none
filled (some s) = if utf16_length s == 0 then none else some s

abbrev pub started_of : Observation → Option String
started_of (exited code started finished) = filled started
started_of _ = none

abbrev kept_policy : Phase → Option Policy
kept_policy pre_activation = none
kept_policy verification = some keep

module _ (h : Host) where
  -- After a start that failed with `x`: the container tells whether the command started.
  abbrev pub judge_start : Thrown → Option Container → Act Event Thrown Started
  judge_start x c = do
    now ← clock h
    pure (
        if is_running_now (observe_container c) || has_value (read_started_at_ms h.date_parse c)
        then began (get_or_else (read_started_at_ms h.date_parse c) now)
        else not_started x)

  abbrev pub after_start_failure : Thrown → Act Event Thrown Started
  after_start_failure x = do
    c ← catching (call inspected_own h.inspect_own) (λ y. throw x)
    judge_start x c

  unfoldable pub start_attempt : Act Event Thrown (Unit {0}) → Act Event Thrown Started
  start_attempt begin = catching (do begin; now ← clock h; pure (began now)) after_start_failure

  -- Where the container neither exited nor is gone: stop it at the deadline, or wait and look again.
  abbrev pub after_look :
      ℕ → Act Event Thrown (Observation × Bool) → Act Event Thrown (Observation × Bool)
  after_look deadline again = do
    now ← clock h
    if leb deadline now
        then (do
          call stopped_own h.stop_own
          c ← call inspected_own h.inspect_own
          pure (observe_container c, true))
        else (call (slept (min 1000 (deadline - now))) (λ t. value tt) >> again)

  abbrev pub on_look :
      ℕ
      → Act Event Thrown (Observation × Bool)
      → Observation
      → Act Event Thrown (Observation × Bool)
  on_look deadline again (exited code started finished) = pure (exited code started finished, false)
  on_look deadline again missing = pure (missing, false)
  on_look deadline again created = after_look deadline again
  on_look deadline again running = after_look deadline again

  unfoldable pub await_exit : ℕ → ℕ → Act Event Thrown (Observation × Bool)
  await_exit zero deadline = no_fuel
  await_exit (suc fuel) deadline =
      let again = await_exit fuel deadline in
      do c ← call inspected_own h.inspect_own; on_look deadline again (observe_container c)

  unfoldable pub ship_logs : Observation → Act Event Thrown (Unit {0})
  ship_logs (exited code started finished) =
      if h.has_build_log then catching (call logs_read h.read_logs) (λ x. pure tt) else pure tt
  ship_logs _ = pure tt

  unfoldable pub outcome_of_exit : Request → Observation → Bool → Outcome
  outcome_of_exit request (exited code started finished) stopped_by_deadline =
      classify_release_job_exit h.date_parse code started finished request.timeout_seconds
        stopped_by_deadline
  outcome_of_exit request _ stopped_by_deadline = Outcome.outcome_unknown

  unfoldable pub resolve_policy : Outcome → Act Event Thrown (Option Policy)
  resolve_policy Outcome.succeeded = pure none
  resolve_policy o = call policy_resolved (λ t. h.resolve_policy t o)

  -- Reports an outcome, with the time of the report.
  abbrev pub send_report :
      ℕ
      → Phase
      → ℕ
      → Outcome
      → Option ℕ
      → Option String
      → Option Policy
      → Option Thrown
      → Act Event Thrown Reported
  send_report fuel phase attempt outcome code started policy failure = do
    now ← clock h
    let r : Report = record {
      attempt = attempt;
      outcome = outcome;
      exit_code = code;
      started_at = started;
      finished_at_ms = now;
      applied_policy = policy;
    }
    report_outcome h fuel phase r
    let sent : Reported = record { report = r; start_failure = failure }
    pure sent

  unfoldable pub conclude : ℕ → Request → ℕ → Observation × Bool → Act Event Thrown Reported
  unfolding ship_logs outcome_of_exit resolve_policy
  conclude fuel request attempt (observation, stopped_by_deadline) = do
    ship_logs observation
    policy ← resolve_policy (outcome_of_exit request observation stopped_by_deadline)
    send_report fuel request.phase attempt (outcome_of_exit request observation stopped_by_deadline)
        (exit_code_of observation) (started_of observation) policy none

  -- A job that never started fails, and a verification that never ran keeps the deployment.
  abbrev pub finish : ℕ → Request → ℕ → Begun → Act Event Thrown Reported
  finish fuel request attempt (start_failed x) =
      send_report fuel request.phase attempt Outcome.failed none none (kept_policy request.phase)
        (some x)
  finish fuel request attempt (over observation) =
      conclude fuel request attempt (observation, false)
  finish fuel request attempt (awaits at) = do
    exit ← await_exit fuel (at + request.timeout_seconds * 1000)
    conclude fuel request attempt exit

  abbrev pub run_start : Target → Request → String → ℕ → Act Event Thrown (Unit {0})
  run_start target request name attempt = do
    remove_settled_attempts h
    call (created_own attempt (job_spec target request name attempt))
        (λ t. h.create_own t (job_spec target request name attempt))
    call started_own h.start_own

  abbrev pub resume_by : Option Container → Recovery → Act Event Thrown Begun
  resume_by c start = do s ← start_attempt (call started_own h.start_own); pure (to_begun s)
  resume_by c wait = do
    now ← clock h
    pure (awaits (get_or_else (read_started_at_ms h.date_parse c) now))
  resume_by c (save outcome code) = pure (over (observe_container c))
  resume_by c declare_unknown = pure (over missing)

  unfoldable pub begin_attempt : Target → Request → Decision → String → ℕ → Act Event Thrown Begun
  unfolding start_attempt job_spec
  begin_attempt target request runs name attempt = do
    s ← start_attempt (run_start target request name attempt)
    pure (to_begun s)
  begin_attempt target request resumes name attempt = do
    c ← call inspected_own h.inspect_own
    resume_by c
        (decide_release_job_recovery h.date_parse (observe_container c) request.timeout_seconds)

  unfoldable pub attempt_and_report :
      ℕ → Target → Request → Decision → String → ℕ → Act Event Thrown Reported
  unfolding begin_attempt await_exit conclude
  attempt_and_report fuel target request decision name attempt = do
    begun ← begin_attempt target request decision name attempt
    finish fuel request attempt begun
