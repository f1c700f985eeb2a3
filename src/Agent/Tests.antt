-- ===== src/Agent/Tests.antt =====
-- Runs of a timer, a cleanup, a heartbeat and the clock.
use nouva_agent.Prelude.{◌≡◌, refl, ℕ, ◌==◌, String, true, none, some, List, [], ◌∷◌, if◌then◌else◌}
use nouva_agent.Prelude.Number.{of_ℕ, nan}
use nouva_agent.Prelude.Effects.{value, failure, ok, Ends}
use nouva_agent.Agent.Interval.{Command, to_period, to_stop, idle, run_all}
use nouva_agent.Agent.Interval.Laws.{follow_all, handle_of, one_timer}
use nouva_agent.Agent.Cleanup.{
  Container, Docker, Event, listed, removed, scope, remove_managed_service_containers,
}
use nouva_agent.Agent.Cleanup.Laws.{removals, IsOwned, cleanup_complete}
use nouva_agent.Agent.Heartbeat.{
  Dependencies, Response, send_agent_heartbeat, dependency, collected, requested, body_read,
  reloaded,
}
use nouva_agent.Agent.Heartbeat.Laws.{adopted, heartbeat_adopts}

abbrev commands : List Command
commands =
    to_period (of_ℕ 30000)
    ∷ to_period nan
    ∷ to_period (of_ℕ 10000)
    ∷ to_stop
    ∷ to_period (of_ℕ 10000)
    ∷ []

one_timer_example :
    follow_all none (run_all commands idle).1 ≡ some (handle_of (run_all commands idle).0.running)
one_timer_example = one_timer commands

-- A Docker that lists a container until it is removed.
abbrev web : Container
web = record { id = "c1"; labels = ("nouva.managed", "true") ∷ ("nouva.service.id", "web") ∷ [] }

abbrev foreign : Container
foreign = record { id = "c2"; labels = ("nouva.service.id", "db") ∷ [] }

abbrev left : List Event → List Container
left [] = web ∷ foreign ∷ []
left (removed id ∷ t) = foreign ∷ []
left (listed cs ∷ t) = left t

abbrev docker : Docker
docker = record { list_by_labels = λ t labels. value (left t); remove = λ t id. value tt }

cleanup_complete_example :
    Ends
      (λ cs u. (u ≡ listed [] ∷ removals cs (listed cs ∷ [])) × IsOwned (scope "web" none) u)
      (λ x u. IsOwned (scope "web" none) u)
      (λ u. ⊥)
      (remove_managed_service_containers docker "web" none [])
cleanup_complete_example = cleanup_complete docker "web" none

abbrev healthy : Response ℕ
healthy = record { status = 200; ok = true; config = value 2 }

-- Configs and snapshots are numbers; each config has peers of its own, and Traefik fails.
abbrev peers_of : ℕ → String
peers_of n = if n == 2 then "[1]" else "[]"

abbrev host : Dependencies ℕ ℕ
host = record {
  collect_snapshot = λ t c. value 7;
  request = λ t s. value healthy;
  reregister = λ t c. failure dependency;
  reload_redaction_context = λ t next previous. value tt;
  reconcile_traefik = λ t next. failure dependency;
  peers = peers_of;
}

heartbeat_adopts_example :
    send_agent_heartbeat host 1 []
    ≡ (ok 2, adopted host 1 2 (reloaded 2 ∷ body_read ∷ requested ∷ collected ∷ []))
heartbeat_adopts_example = heartbeat_adopts host 1 2 7 healthy refl refl refl refl refl refl
