-- ===== src/Worker/Readiness/Tests.antt =====
-- A worker that restarted once and then keeps running.
use nouva_agent.Prelude.{
  ℕ, ◌≤◌, ◌+◌, ltb, true, false, none, some, List, [], ◌∷◌, arith, if◌then◌else◌,
}
use nouva_agent.Prelude.Effects.{value}
use nouva_agent.Worker.Readiness.{
  Seen, Event, inspected, inspection_failed, exits_counted, slept, Host, Input,
  wait_for_worker_readiness,
}
use nouva_agent.Worker.Readiness.Steady.{IsClock}
use nouva_agent.Worker.Readiness.Laws.{EndsReady, wait-EndsReady}

abbrev elapsed : List Event → ℕ
elapsed [] = 0
elapsed (slept ms ∷ t) = elapsed t + ms
elapsed (_ ∷ t) = elapsed t

abbrev worker : Seen
worker = record {
  id = "w1";
  restart_count = some 1;
  running = some true;
  status = some "running";
  started_at = none;
  health = none;
}

abbrev host : Host
host = record {
  inspect = λ t. value (
      some (
        if ltb (elapsed t) 1000
        then record worker { status = some "restarting"; restart_count = some 0 }
        else worker));
  count_container_exits = λ t id from until. some 0;
  date_parse = λ s. none;
  now = elapsed;
}

abbrev input : Input
input = record {
  has_healthcheck = false;
  ignore_earlier_restarts = true;
  restarts_before_start = 0;
  timeout_ms = 60000;
  interval_ms = 500;
  running_grace_ms = 10000;
  crash_loop_restart_count = 3;
}

elapsed-onward : (e : Event) (t : List Event) → elapsed t ≤ elapsed (e ∷ t)
elapsed-onward (inspected c) t = ground arith
elapsed-onward inspection_failed t = ground arith
elapsed-onward exits_counted t = ground arith
elapsed-onward (slept ms) t = ground arith

host-IsClock : IsClock host
host-IsClock = record { onward = elapsed-onward; waits = λ ms t. ground arith }

wait-EndsReady_example : EndsReady host input (wait_for_worker_readiness host input 60002 [])
wait-EndsReady_example = wait-EndsReady host input 60002 host-IsClock (ground arith) (ground arith)
