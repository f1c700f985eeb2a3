-- ===== src/Worker/Readiness.antt =====
-- `waitForWorkerReadiness` of agent/src/worker-runtime.ts over any Docker and any clock. An error is a
-- constructor in place of its text. The loop takes fuel; Readiness/Laws shows how much is enough.
pub mod Steady
pub mod Laws
mod Tests
use Prim.Native.Nat.{zero, suc}
use nouva_agent.Prelude.{
  ℕ, ◌+◌, ◌-◌, ◌==◌, leb, ltb, String, str_eq, to_lower, Bool, true, false, not, ◌&&◌, ◌||◌, Option,
  none, some, List, [], ◌∷◌, if◌then◌else◌, get_or_else,
}
use nouva_agent.Prelude.Integer.{pos}
use nouva_agent.Prelude.Effects.{
  Result, ok, threw, Answer, value, failure, Act, pure, throw, no_fuel, call, ◌>>=◌, ◌>>◌,
}
use nouva_agent.Service.Restarts.{Inspection, count_recent_restarts, has_outlasted_restart_loop}

-- What is read of an inspection. Docker's count of restarts is never negative.
pub record Seen : Type 0 where
  pub id : String
  pub restart_count : Option ℕ
  pub running : Option Bool
  pub status : Option String
  pub started_at : Option String
  pub health : Option String

pub data Thrown : Type 0 where
  docker_failed missing unhealthy never_healthy never_steady : Thrown
  not_running : (status : Option String) → Thrown
  crash_looping : (restarts : ℕ) → Thrown

pub data Event : Type 0 where
  -- An inspection and what it showed; `none` for a container that is not there.
  inspected : Option Seen → Event
  inspection_failed exits_counted : Event
  slept : (ms : ℕ) → Event

pub record Host : Type 0 where
  pub inspect : List Event → Answer Thrown (Option Seen)
  pub count_container_exits : List Event → String → ℕ → ℕ → Option ℕ
  pub date_parse : String → Option ℕ
  pub now : List Event → ℕ

pub record Input : Type 0 where
  pub has_healthcheck : Bool
  pub ignore_earlier_restarts : Bool
  pub restarts_before_start : ℕ
  pub timeout_ms : ℕ
  pub interval_ms : ℕ
  pub running_grace_ms : ℕ
  pub crash_loop_restart_count : ℕ

-- The variables of the loop.
pub record Watch : Type 0 where
  pub running_since : Option ℕ
  pub observed_restart_count : Option ℕ
  pub restart_baseline : Option ℕ
  pub recent_restarts : ℕ
  pub recovered : Bool

abbrev pub watch_from : Input → Watch
watch_from i = record {
  running_since = none;
  observed_restart_count = none;
  restart_baseline = if i.ignore_earlier_restarts then none else some 0;
  recent_restarts = i.restarts_before_start;
  recovered = false;
}

abbrev pub lower : Option String → Option String
lower none = none
lower (some s) = some (to_lower s)

abbrev pub is_text : Option String → String → Bool
is_text none s = false
is_text (some t) s = str_eq t s

abbrev pub is_true : Option Bool → Bool
is_true none = false
is_true (some b) = b

abbrev pub is_terminal_container_status : Option String → Bool
is_terminal_container_status status =
    is_text status "dead" || is_text status "exited" || is_text status "removing"

abbrev pub restarts_of : Seen → ℕ
restarts_of c = get_or_else c.restart_count 0

-- A process that runs, rather than one that waits out its restart back-off.
unfoldable pub is_started : Seen → Bool
is_started c = is_true c.running && not (is_text (lower c.status) "restarting")

unfoldable pub has_health : Seen → String → Bool
has_health c s = is_text (lower c.health) s

abbrev pub is_more : ℕ → Option ℕ → Bool
is_more count none = false
is_more count (some earlier) = ltb earlier count

-- The restarts that count, of a watch with a baseline.
unfoldable pub counted_restarts : Watch → ℕ → ℕ → ℕ
counted_restarts w baseline count =
    let observed = count - baseline in
    (if w.recovered && observed == 0 then 0 else w.recent_restarts) + observed

pub data Verdict : Type 0 where
  ready : Verdict
  fails : Thrown → Verdict
  goes_on : Watch → Verdict

abbrev pub judge_grace : Input → ℕ → Watch → ℕ → Verdict
judge_grace i now w since =
    if leb (since + i.running_grace_ms) now
    then ready
    else goes_on (record w { running_since = some since })

abbrev pub judge_running : Input → ℕ → Seen → Watch → Verdict
judge_running i now c w =
    if i.has_healthcheck
    then (if has_health c "healthy" && is_started c then ready else goes_on w)
    else if is_started c
    then judge_grace i now w (get_or_else w.running_since now)
    else goes_on (record w { running_since = none })

-- What an inspection comes to, once the baseline is set.
unfoldable pub judge : Input → ℕ → Seen → ℕ → Watch → Verdict
unfolding counted_restarts is_started has_health
judge i now c baseline w =
    let count = restarts_of c in
    let restarts = counted_restarts w baseline count in
    if leb i.crash_loop_restart_count restarts
    then fails (crash_looping restarts)
    else if has_health c "unhealthy"
    then fails unhealthy
    else judge_running i now c (record w {
      running_since = if is_more count w.observed_restart_count then none else w.running_since;
      observed_restart_count = some count;
    })

abbrev to_inspection : Seen → Inspection
to_inspection c = record {
  id = c.id;
  restart_count = some (pos (restarts_of c));
  running = c.running;
  status = c.status;
  started_at = c.started_at;
}

module _ (h : Host) (i : Input) where
  abbrev pub clock : Act Event Thrown ℕ
  clock t = (ok (h.now t), t)

  abbrev pub inspect_answered : Answer Thrown (Option Seen) → Act Event Thrown (Option Seen)
  inspect_answered (value c) t = (ok c, inspected c ∷ t)
  inspect_answered (failure x) t = (threw x, inspection_failed ∷ t)

  abbrev pub inspect : Act Event Thrown (Option Seen)
  inspect t = inspect_answered (h.inspect t) t

  -- The first inspection of a container that kept running sets what its restarts are counted from.
  unfoldable pub first_watch : ℕ → Seen → Watch → List Event → Watch
  first_watch inspected_at c w t = record w {
    restart_baseline = some (restarts_of c);
    recent_restarts =
        count_recent_restarts (h.count_container_exits t) h.date_parse (to_inspection c)
          inspected_at;
    recovered =
        has_outlasted_restart_loop (h.count_container_exits t) h.date_parse (to_inspection c)
          inspected_at i.crash_loop_restart_count;
  }

  abbrev pub set_baseline : ℕ → Seen → Watch → Option ℕ → Act Event Thrown (ℕ × Watch)
  set_baseline inspected_at c w (some baseline) t = (ok (baseline, w), t)
  set_baseline inspected_at c w none t = (
    ok (restarts_of c, first_watch inspected_at c w t),
    if restarts_of c == 0 then t else exits_counted ∷ t,
  )

  abbrev pub follow : (Watch → Act Event Thrown (Unit {0})) → Verdict → Act Event Thrown (Unit {0})
  follow again ready = pure tt
  follow again (fails x) = throw x
  follow again (goes_on w) = call (slept i.interval_ms) (λ t. value tt) >> again w

  abbrev pub on_seen :
      (Watch → Act Event Thrown (Unit {0})) → ℕ → Watch → Option Seen → Act Event Thrown (Unit {0})
  on_seen again inspected_at w none = throw missing
  on_seen again inspected_at w (some c) =
      if is_terminal_container_status (lower c.status)
      then throw (not_running (lower c.status))
      else (do
        set ← set_baseline inspected_at c w w.restart_baseline
        now ← clock
        follow again (judge i now c set.0 set.1))

  unfoldable pub wait_from : ℕ → ℕ → Watch → Act Event Thrown (Unit {0})
  unfolding judge first_watch
  wait_from zero deadline w = no_fuel
  wait_from (suc fuel) deadline w =
      let again = wait_from fuel deadline in
      do
        inspected_at ← clock
        if ltb deadline inspected_at
            then throw (if i.has_healthcheck then never_healthy else never_steady)
            else (do c ← inspect; on_seen again inspected_at w c)

  unfoldable pub wait_for_worker_readiness : ℕ → Act Event Thrown (Unit {0})
  unfolding wait_from
  wait_for_worker_readiness fuel = do
    now ← clock
    wait_from fuel (now + i.timeout_ms) (watch_from i)
