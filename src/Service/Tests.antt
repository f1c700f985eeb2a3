-- ===== src/Service/Tests.antt =====
-- Runs of the readiness of a candidate, restarts, resource limits and the agent's update.
use nouva_agent.Prelude.{
  ◌≡◌, refl, ℕ, ◌+◌, ◌≤◌, ◌<◌, str_eq, String, to_lower, true, false, Option, none, some, List, [],
  ◌∷◌, arith, ◌⊎◌, trim, decimal,
}
use nouva_agent.Prelude.Integer.{pos, negsuc}
use nouva_agent.Prelude.Number.{of_ℕ}
use nouva_agent.Prelude.Effects.{value, ended}
use nouva_agent.Service.Readiness.{
  ContainerState, ReadinessInput, Cause, out_of_memory, ready, failed, no_evidence,
  assess_candidate_readiness, evidence_after, is_down, lower_status, step_of, record_evidence,
}
use nouva_agent.Service.Readiness.Messages.{
  describe_out_of_memory, describe_memory_limits, format_byte_size, format_restarts, join_details,
}
use nouva_agent.Service.Readiness as Readiness
use nouva_agent.Service.Readiness.Laws.{
  IsFailed, next_poll, poll_all, lasting_failure, survived_kill, failing_code_stays,
  is_failing_code,
}
use nouva_agent.Service.Restarts.{recent_exit_window_ms, read_restart_count, count_restart_loop}
use nouva_agent.Service.Restarts as Restarts
use nouva_agent.Service.Limits.{
  ResourceLimits, DockerResourceSettings, Applied, number, to_docker_resource_settings, settled,
}
use nouva_agent.Service.Limits.Laws.{settings-bounds}
use nouva_agent.Service.Update.{
  Payload, Host, Event, slept, updater_started, to_update_agent_payload,
  start_agent_updater_after_drain,
}
use nouva_agent.Service.Update.Laws.{IsClock, IsIdle, updater_starts_last}

abbrev up : ContainerState
up = record {
  status = some "Running";
  running = some true;
  oom_killed = some true;
  exit_code = some 0;
  health = some (some "healthy");
}

abbrev seen : Readiness.Inspection
seen = record {
  state = some up;
  restart_count = some (pos 1);
  memory = some (pos 268435456);
  memory_swap = some (negsuc 0);
  networks = none;
}

abbrev candidate : ReadinessInput
candidate = record {
  container_name = "web-1";
  app_port = 3000;
  inspection = seen;
  evidence = no_evidence;
  subject = none;
  restart_baseline = none;
  recent_restarts = none;
  out_of_memory_at_start = none;
}

abbrev killed_message : String
killed_message =
    "Candidate container web-1 ran out of memory and was killed (memory limit 256 MiB, swap unlimited, 1 restart); raise the service memory limit and redeploy"

killed_for_memory :
    (assess_candidate_readiness candidate).step ≡ failed out_of_memory killed_message
unfolding assess_candidate_readiness step_of evidence_after record_evidence to_lower decimal
    describe_out_of_memory describe_memory_limits format_byte_size format_restarts join_details
killed_for_memory = refl

lasting_failure_example :
    IsFailed
      (assess_candidate_readiness
        (next_poll candidate (poll_all candidate (evidence_after candidate) []) seen)).step
lasting_failure_example =
    lasting_failure candidate out_of_memory killed_message [] seen killed_for_memory refl

abbrev survivor : ReadinessInput
survivor = record candidate { out_of_memory_at_start = some true }

survived_kill_example : ¬ (
    (assess_candidate_readiness
      (next_poll survivor (poll_all survivor no_evidence (seen ∷ seen ∷ [])) seen)).step
    ≡ Readiness.failed out_of_memory "app was killed")
survived_kill_example = survived_kill survivor (seen ∷ seen ∷ []) seen "app was killed" refl refl

failing_code_stays_example :
    is_failing_code
      (poll_all candidate (record no_evidence { exit_code = some 1 }) (seen ∷ [])).exit_code
    ≡ true
failing_code_stays_example =
    failing_code_stays candidate (record no_evidence { exit_code = some 1 }) (seen ∷ []) refl

abbrev crashing : Restarts.Inspection
crashing = record {
  id = "c1";
  restart_count = some (pos 3);
  running = some true;
  status = some "running";
  started_at = some "then";
}

abbrev two_exits : String → ℕ → ℕ → Option ℕ
two_exits id since until = some 2

abbrev parsed_as : ℕ → String → Option ℕ
parsed_as n s = some n

looping : 0 < count_restart_loop two_exits (parsed_as 990000) crashing 1000000 2
unfolding count_restart_loop to_lower
looping = omega arith

runs : str_eq (to_lower "running") "running" ≡ true
unfolding to_lower
runs = refl

abbrev limits : ResourceLimits
limits = record {
  cpu = some (number (of_ℕ 500));
  memory = some (number (of_ℕ 1024));
  memory_and_swap = none;
  pids = some (number (of_ℕ 64));
}

abbrev settings : DockerResourceSettings
settings = record { nano_cpus = 500000000; memory = 1024; memory_swap = 1024; pids_limit = 64 }

limits-settled : to_docker_resource_settings (some limits) ≡ settled settings
unfolding to_docker_resource_settings
limits-settled = refl

settings-bounds_example :
    (1000000 ≤ settings.nano_cpus)
    × (0 < settings.memory)
    × (settings.memory ≤ settings.memory_swap)
    × (0 < settings.pids_limit)
settings-bounds_example = settings-bounds (some limits) settings limits-settled

abbrev applied : Applied
applied = record {
  nano_cpus = some 500000000;
  memory = some 1024;
  memory_swap = none;
  pids_limit = some 64;
}

-- A host whose work never ends.
abbrev waited : List Event → ℕ
waited [] = 0
waited (slept ms ∷ t) = ms + waited t
waited (updater_started ∷ t) = waited t

abbrev busy : Host
busy = record { is_work_active = λ t. true; start_updater = λ t. value tt; now = waited }

busy-IsClock : IsClock busy
busy-IsClock = record { waits = λ ms t. omega arith }

updater_starts_last_example :
    (u : List Event) × (start_agent_updater_after_drain busy 500 (60000 + 1) 60000 []
      ≡ (ended (busy.start_updater u), updater_started ∷ u))
    × IsIdle u
    × ((busy.is_work_active u ≡ false) ⊎ (busy.now [] + 60000 ≤ busy.now u))
updater_starts_last_example = updater_starts_last busy 500 60000 busy-IsClock (omega arith)

abbrev payload : Payload
payload = record {
  release_id = none;
  version = some "1.2.0";
  image_ref = some "nouva/agent:1";
  image_tag = some "";
}

abbrev cleaned : Payload
cleaned = record payload { image_tag = none }

payload_accepted : to_update_agent_payload payload ≡ some cleaned
unfolding to_update_agent_payload trim
payload_accepted = refl
