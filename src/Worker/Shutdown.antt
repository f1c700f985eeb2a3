-- ===== src/Worker/Shutdown.antt =====
-- `stopWorkerContainerGracefully` of agent/src/worker-shutdown.ts over any Docker and any clock. A
-- call's event keeps what the program saw of the answer, so that a history shows it. The polling
-- loop takes fuel; Shutdown/Termination shows how much is enough.
pub mod Termination
use Prim.Native.Nat.{zero, suc}
use nouva_agent.Prelude.{
  ℕ, ◌+◌, ◌-◌, ◌*◌, ◌==◌, leb, min, String, Bool, true, false, Option, none, some, List, [], ◌∷◌,
  if◌then◌else◌,
}
use nouva_agent.Prelude.Effects.{
  Result, ok, threw, Answer, value, failure, Act, pure, throw, no_fuel, call, catching, ◌>>=◌, ◌>>◌,
}
use nouva_agent.Worker.Policy.{StopOutcome, exited, forced, already_stopped, hung}
use nouva_agent.Worker.Signal.{resolve_worker_stop_signal}

abbrev pub poll_interval_ms : ℕ
poll_interval_ms = 500

abbrev pub kill_confirm_ms : ℕ
kill_confirm_ms = 15000

-- What `readRunningState` reads of an inspection.
pub record RunningState : Type 0 where
  pub running : Bool
  pub exit_code : Option ℕ
  pub stop_signal : Option String

pub data Event : Type 0 where
  -- An inspection, and whether it showed the container running.
  inspected : (running : Bool) → Event
  -- The update of the restart policy, and whether Docker answered that it was done.
  restart_policy_off : (done : Bool) → Event
  killed : (signal : String) → Event
  waited : (ms : ℕ) → Event

-- An answer of Docker with an HTTP status, or any other failure.
pub data Thrown : Type 0 where
  docker_error : (status : ℕ) → Thrown
  other : Thrown

-- The outside: Docker, and the clock, which the program reads without a trace.
pub record Host : Type 0 where
  -- `none` for a container that is not there.
  pub inspect : List Event → Answer Thrown (Option RunningState)
  pub update : List Event → Answer Thrown (Unit {0})
  pub kill : List Event → String → Answer Thrown (Unit {0})
  pub now : List Event → ℕ

pub record Report : Type 0 where
  pub signal : String
  pub grace_seconds : ℕ
  pub outcome : StopOutcome
  pub exit_code : Option ℕ
  pub elapsed_ms : ℕ

abbrev pub gone : RunningState
gone = record { running = false; exit_code = none; stop_signal = none }

abbrev pub state_of : Option RunningState → RunningState
state_of none = gone
state_of (some s) = s

abbrev seen :
    Answer Thrown (Option RunningState) → List Event → Result Thrown RunningState × List Event
seen (value o) t = (ok (state_of o), inspected (state_of o).running ∷ t)
seen (failure x) t = (threw x, t)

module _ (h : Host) where
  unfoldable pub read_running_state : Act Event Thrown RunningState
  read_running_state t = seen (h.inspect t) t

  abbrev pub clock : Act Event Thrown ℕ
  clock t = (ok (h.now t), t)

  -- One round of the loop, once the state is read: `none` when the deadline passed, else the exit
  -- code of a stopped container, or a wait and another round.
  unfoldable pub poll_after :
      ℕ → Act Event Thrown (Option (Option ℕ)) → RunningState → Act Event Thrown (Option (Option ℕ))
  poll_after deadline again state = do
    now ← clock
    if state.running
        then if leb deadline now
          then pure none
          else call (waited (min poll_interval_ms (deadline - now))) (λ _. value tt) >> again
        else pure (some state.exit_code)

  unfoldable pub wait_until_stopped : ℕ → ℕ → Act Event Thrown (Option (Option ℕ))
  wait_until_stopped zero deadline = no_fuel
  wait_until_stopped (suc fuel) deadline =
      let again = wait_until_stopped fuel deadline in
      do state ← read_running_state; poll_after deadline again state

  -- `report(outcome, exitCode)`, with the time since the start.
  abbrev report : ℕ → String → ℕ → StopOutcome → Option ℕ → Act Event Thrown Report
  report started signal grace outcome code = do
    now ← clock
    pure (record {
      signal = signal;
      grace_seconds = grace;
      outcome = outcome;
      exit_code = code;
      elapsed_ms = now - started;
    })

  -- Whether the container was still there for the restart-policy update; a 404 means it was not.
  abbrev pub absent_is_gone : Thrown → Act Event Thrown Bool
  absent_is_gone (docker_error status) =
      if status == 404 then pure false else throw (docker_error status)
  absent_is_gone other = throw other

  abbrev pub updated : Answer Thrown (Unit {0}) → Act Event Thrown (Unit {0})
  updated (value o) t = (ok tt, restart_policy_off true ∷ t)
  updated (failure x) t = (threw x, restart_policy_off false ∷ t)

  abbrev update : Act Event Thrown (Unit {0})
  update t = updated (h.update t) t

  abbrev pub switch_off_restarts : Act Event Thrown Bool
  switch_off_restarts = catching (update >> pure true) absent_is_gone

  abbrev kill_with : String → Act Event Thrown (Unit {0})
  kill_with signal = call (killed signal) (λ t. h.kill t signal)

  abbrev pub after_force : ℕ → String → ℕ → Option (Option ℕ) → Act Event Thrown Report
  after_force started signal grace (some code) = report started signal grace forced code
  after_force started signal grace none = report started signal grace hung none

  unfoldable pub force_stop : ℕ → ℕ → String → ℕ → Act Event Thrown Report
  force_stop fuel started signal grace = do
    kill_with "SIGKILL"
    now ← clock
    stopped ← wait_until_stopped fuel (now + kill_confirm_ms)
    after_force started signal grace stopped

  abbrev pub after_grace : ℕ → ℕ → String → ℕ → Option (Option ℕ) → Act Event Thrown Report
  after_grace fuel started signal grace (some code) = report started signal grace exited code
  after_grace fuel started signal grace none = force_stop fuel started signal grace

  -- What follows the update, with whether the container was still there.
  abbrev pub after_update : ℕ → ℕ → String → ℕ → Bool → Act Event Thrown Report
  after_update fuel started signal grace true = do
    kill_with signal
    stopped ← wait_until_stopped fuel (started + grace * 1000)
    after_grace fuel started signal grace stopped
  after_update fuel started signal grace false = report started signal grace already_stopped none

  unfoldable pub stop_running : ℕ → ℕ → String → ℕ → Act Event Thrown Report
  stop_running fuel started signal grace = do
    there ← switch_off_restarts
    after_update fuel started signal grace there

  unfoldable pub stop_worker_container_gracefully : ℕ → Option String → ℕ → Act Event Thrown Report
  stop_worker_container_gracefully fuel policy_signal grace = do
    started ← clock
    initial ← read_running_state
    let signal = resolve_worker_stop_signal policy_signal initial.stop_signal
    if initial.running
        then stop_running fuel started signal grace
        else report started signal grace already_stopped initial.exit_code
