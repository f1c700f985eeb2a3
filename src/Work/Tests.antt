-- ===== src/Work/Tests.antt =====
-- Runs of the reporting of work and of the scheduler.
use nouva_agent.Prelude.{◌≡◌, ℕ, ◌+◌, ◌≤◌, Option, none, some, List, [], ◌∷◌, length}
use nouva_agent.Prelude.Names.{IsDistinct}
use nouva_agent.Prelude.Effects.{value, ended}
use nouva_agent.Work.Reporting.{
  Report, complete, fail, terminal, Thrown, api, Event, lease_stopped, Host,
  execute_and_report_agent_work,
}
use nouva_agent.Work.Reporting.Laws.{tries, stops, AsksSoundly, lease_stops_last}
use nouva_agent.Work.Scheduler.{
  Scheduler, trigger, leased, work_ended, triggers, leases, ends, Reach, here, later,
}
use nouva_agent.Work.Scheduler.Laws.{state, pending, bounded}

-- A completion that the control plane refuses with 422, so that a failure is reported instead.
abbrev accepts : Report ℕ → Option Thrown
accepts (complete r) = some (api 422)
accepts (fail r m) = none

abbrev refusing : Host ℕ
refusing = record {
  prepare = λ t. value (terminal (complete 7));
  send = λ t report. accepts report;
  reject_result = λ t. value (fail 7 "refused");
  stop_lease = λ t. value tt;
}

lease_stops_last_example :
    (u : List (Event ℕ)) × (execute_and_report_agent_work refusing []
      ≡ (ended (refusing.stop_lease u), lease_stopped ∷ u))
    × (stops u ≡ 0)
    × (tries u ≤ 8)
    × AsksSoundly u
lease_stops_last_example = lease_stops_last refusing

-- A lease of two, of which one ends.
abbrev after_lease : Scheduler
after_lease = (leased (trigger (state 3 [] none)).0 ("a" ∷ "b" ∷ [])).0

abbrev after_end : Scheduler
after_end = work_ended after_lease "a"

after_end_reached : Reach (state 3 [] none) after_end
after_end_reached = later (later (later here triggers) (leases ("a" ∷ "b" ∷ []))) (ends "a")

bounded_example :
    (length after_end.active + pending after_end.polling ≤ 3) × IsDistinct after_end.active
bounded_example = bounded 3 after_end after_end_reached
