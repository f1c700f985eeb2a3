-- ===== src/Release/Recovery.antt =====
-- The agent's reading of a job container: `classifyReleaseJobExit` and `decideReleaseJobRecovery`
-- of packages/runtime/src/release-phases.ts. Exit codes are natural numbers, times milliseconds.
pub mod Laws
use nouva_agent.Prelude.{
  ℕ, ◌+◌, ◌*◌, ◌==◌, leb, String, Bool, false, ◌||◌, Option, none, some, if◌then◌else◌,
}
use nouva_agent.Release.Phases.{Outcome}
use text.Mathlib.Text.{starts_with}
use text.Mathlib.Text.{◌==◌ as str_eq}

-- `Date.parse` of the platform, which is none where it gives NaN.
abbrev pub DateParse : Type 0
DateParse = String → Option ℕ

pub data Observation : Type 0 where
  missing created running : Observation
  exited : (exit_code : ℕ) (started_at finished_at : Option String) → Observation

pub data Recovery : Type 0 where
  start wait declare_unknown : Recovery
  save : (outcome : Outcome) (exit_code : ℕ) → Recovery

module _ (parse : DateParse) where
  unfoldable pub read_timestamp_ms : Option String → Option ℕ
  read_timestamp_ms none = none
  read_timestamp_ms (some value) =
      if str_eq value "" || starts_with value "0001-" then none else parse value

  abbrev pub by_exit_code : ℕ → Outcome
  by_exit_code exit_code = if exit_code == 0 then Outcome.succeeded else Outcome.failed

  -- With both timestamps the running time decides, and else the agent's own stop.
  unfoldable pub classify_timed : ℕ → Option ℕ → Option ℕ → ℕ → Bool → Outcome
  classify_timed exit_code (some started) (some finished) timeout stopped =
      if leb (started + timeout * 1000) finished then Outcome.timed_out else by_exit_code exit_code
  classify_timed exit_code _ _ timeout stopped =
      if stopped then Outcome.timed_out else by_exit_code exit_code

  unfoldable pub classify_release_job_exit : ℕ → Option String → Option String → ℕ → Bool → Outcome
  unfolding read_timestamp_ms classify_timed
  classify_release_job_exit exit_code started_at finished_at timeout stopped =
      classify_timed exit_code (read_timestamp_ms started_at) (read_timestamp_ms finished_at)
        timeout stopped

  unfoldable pub decide_release_job_recovery : Observation → ℕ → Recovery
  unfolding classify_release_job_exit
  decide_release_job_recovery created timeout = start
  decide_release_job_recovery running timeout = wait
  decide_release_job_recovery (exited code started finished) timeout =
      save (classify_release_job_exit code started finished timeout false) code
  decide_release_job_recovery missing timeout = declare_unknown
