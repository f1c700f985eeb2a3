-- ===== src/Service/Restarts.antt =====
-- agent/src/container-restarts.ts. `Date.parse` and Docker's event log are parameters; the log is
-- asked once and may fail.
pub mod Laws
use nouva_agent.Prelude.{
  ℕ, ◌-◌, ◌/◌, ◌+◌, ◌*◌, min, ◌==◌, leb, String, str_eq, to_lower, Bool, true, false, ◌&&◌, Option,
  none, some, if◌then◌else◌,
}
use nouva_agent.Prelude.Integer.{ℤ, pos, negsuc}

abbrev pub recent_exit_window_ms : ℕ
recent_exit_window_ms = 300000

pub record Inspection : Type 0 where
  pub id : String
  pub restart_count : Option ℤ
  pub running : Option Bool
  pub status : Option String
  pub started_at : Option String

-- `readRestartCount`; `none` for no inspection.
abbrev pub read_restart_count : Option Inspection → ℕ
read_restart_count none = 0
read_restart_count (some i) = count i.restart_count
  where
    count : Option ℤ → ℕ
    count none = 0
    count (some (negsuc n)) = 0
    count (some (pos n)) = n

module _
    -- The exits of a container in a window of time; `none` when Docker fails.
    (count_container_exits : String → ℕ → ℕ → Option ℕ)
    -- A time in milliseconds; `none` for NaN.
    (date_parse : String → Option ℕ) where
  abbrev capped : ℕ → Option ℕ → ℕ
  capped restarts none = 0
  capped restarts (some exits) = min restarts exits

  unfoldable pub count_recent_restarts : Inspection → ℕ → ℕ
  count_recent_restarts i until =
      let restarts = read_restart_count (some i) in
      if restarts == 0
      then 0
      else capped restarts (count_container_exits i.id (until - recent_exit_window_ms) until)

  abbrev is_true : Option Bool → Bool
  is_true none = false
  is_true (some b) = b

  abbrev is_running_status : Option String → Bool
  is_running_status none = false
  is_running_status (some status) = str_eq (to_lower status) "running"

  -- `started <= until - window / threshold`, in exact quotients, of a time that may be NaN.
  abbrev started_by : Option ℕ → ℕ → ℕ → Bool
  started_by none until threshold = false
  started_by (some started) until threshold =
      leb (started * threshold + recent_exit_window_ms) (until * threshold)

  abbrev text_of : Option String → String
  text_of none = ""
  text_of (some s) = s

  unfoldable pub has_outlasted_restart_loop : Inspection → ℕ → ℕ → Bool
  has_outlasted_restart_loop i until threshold =
      is_true i.running
      && is_running_status i.status
      && started_by (date_parse (text_of i.started_at)) until threshold

  unfoldable pub count_restart_loop : Inspection → ℕ → ℕ → ℕ
  unfolding count_recent_restarts has_outlasted_restart_loop
  count_restart_loop i until threshold =
      let recent = count_recent_restarts i until in
      if has_outlasted_restart_loop i until threshold then 0 else recent
