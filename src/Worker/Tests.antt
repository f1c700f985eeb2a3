-- ===== src/Worker/Tests.antt =====
-- Runs of the worker rollout, the stop of a container and the shutdown reports.
use nouva_agent.Prelude.{
  ◌≡◌, refl, ℕ, ◌+◌, ◌≤◌, Bool, true, false, none, some, List, [], ◌∷◌, All, arith, ◌⊎◌, ◌↔◌,
  get_or_else, not, str_eq, ◌||◌,
}
use nouva_agent.Prelude.Names.{is_member}
use nouva_agent.Prelude.Number.{of_ℕ, finite}
use nouva_agent.Prelude.Effects.{value, Ends}
use nouva_agent.Worker.Policy.{overlap, no_overlap, ShutdownPolicy}
use nouva_agent.Worker.Rollout.{Existing, RolloutInput, plan_worker_rollout, same_deployment}
use nouva_agent.Worker.Rollout.Laws.{StartsBeside, single_writer, no_overlap_same_version}
use nouva_agent.Worker.Shutdown.{
  Event, Host, inspected, killed, waited, restart_policy_off, stop_worker_container_gracefully,
}
use nouva_agent.Worker.Shutdown.Termination.{IsClock, IsShown, IsGuarded, stop_graceful}
use nouva_agent.Worker.Reports.{
  text, number, parse_worker_shutdown_policy, RolloutFields, ReportFields,
  sanitize_worker_rollout_shutdown_fields,
}
use nouva_agent.Worker.Reports.Laws.{
  to_fields, IsOffered, policy_round_trip, IsSafe, sanitized-IsSafe,
}

-- A candidate, a stopped container of an older version, and one of the same version that runs.
abbrev containers : List Existing
containers =
    record { name = "web-1"; deployment_id = some "new"; live = false }
    ∷ record { name = "web-0"; deployment_id = some "old"; live = false }
    ∷ []

abbrev running_sibling : Existing
running_sibling = record { name = "web-2"; deployment_id = some "new"; live = true }

abbrev with_volume : RolloutInput
with_volume = record {
  rollout_policy = overlap;
  has_volume = true;
  deployment_id = "new";
  candidate_names = "web-1" ∷ [];
  containers = containers;
}

abbrev singleton : RolloutInput
singleton = record {
  rollout_policy = no_overlap;
  has_volume = false;
  deployment_id = "new";
  candidate_names = "web-1" ∷ [];
  containers = running_sibling ∷ containers;
}

starts_with_volume : StartsBeside (plan_worker_rollout with_volume)
unfolding plan_worker_rollout
starts_with_volume = tt

starts_singleton : StartsBeside (plan_worker_rollout singleton)
unfolding plan_worker_rollout
starts_singleton = tt

single_writer_example :
    All
      (λ c. (is_member c.name with_volume.candidate_names ≡ true) ⊎ (c.live ≡ false))
      with_volume.containers
single_writer_example = single_writer with_volume (λ e. absurd (cc)) refl starts_with_volume

no_overlap_same_version_example :
    All
      (λ c.
        (is_member c.name singleton.candidate_names ≡ true)
        ⊎ (c.live ≡ false)
        ⊎ (same_deployment c.deployment_id singleton.deployment_id ≡ true))
      singleton.containers
no_overlap_same_version_example =
    no_overlap_same_version singleton (λ e. absurd (cc)) refl starts_singleton

-- A container that ignores its signal, so that it is killed, on a clock that only waits advance.
abbrev killed_at : List Event → Bool
killed_at [] = false
killed_at (killed s ∷ t) = str_eq s "SIGKILL" || killed_at t
killed_at (_ ∷ t) = killed_at t

abbrev elapsed : List Event → ℕ
elapsed [] = 0
elapsed (waited ms ∷ t) = ms + elapsed t
elapsed (_ ∷ t) = elapsed t

abbrev stubborn : Host
stubborn = record {
  inspect = λ t.
      value
        (some (record { running = not (killed_at t); exit_code = some 137; stop_signal = none }));
  update = λ t. value tt;
  kill = λ t s. value tt;
  now = elapsed;
}

elapsed_onward : (e : Event) (t : List Event) → elapsed t ≤ elapsed (e ∷ t)
elapsed_onward (inspected b) t = omega arith
elapsed_onward (restart_policy_off done) t = omega arith
elapsed_onward (killed s) t = omega arith
elapsed_onward (waited ms) t = omega arith

stubborn-IsClock : IsClock stubborn
stubborn-IsClock = record { onward = elapsed_onward; waits = λ ms t. omega arith }

stop_graceful_example :
    Ends IsShown
      (λ x u. IsGuarded u)
      (λ u. ⊥)
      (stop_worker_container_gracefully stubborn 16001 (some "SIGTERM") 1 [])
stop_graceful_example =
    stop_graceful stubborn 16001 1 (some "SIGTERM") stubborn-IsClock (omega arith)

abbrev interrupting : ShutdownPolicy
interrupting = record { signal = some "SIGINT"; grace_seconds = 90; rollout_policy = overlap }

policy_round_trip_example :
    (parse_worker_shutdown_policy (some (to_fields interrupting)) ≡ some interrupting)
    ↔ (IsOffered (some "SIGINT") × (1 ≤ 90) × (90 ≤ 3600))
policy_round_trip_example = policy_round_trip interrupting

abbrev reported : ReportFields
reported = record {
  container_name = text "web-0";
  role = text "previous";
  signal = text "SIGTERM";
  grace_seconds = number (of_ℕ 30);
  outcome = text "exited";
  exit_code = number (of_ℕ 0);
  elapsed_ms = number (finite false 1200 0);
}

abbrev rollout : RolloutFields
rollout = record { policy = none; shutdowns = some (some (some reported ∷ none ∷ [])) }

sanitized-IsSafe_example :
    All IsSafe
      (get_or_else (sanitize_worker_rollout_shutdown_fields rollout (λ n. "web")).shutdowns [])
sanitized-IsSafe_example = sanitized-IsSafe rollout (λ n. "web")
