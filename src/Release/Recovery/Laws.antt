-- ===== src/Release/Recovery/Laws.antt =====
-- What the agent concludes from a job's container.
use nouva_agent.Prelude.{◌≡◌, ◌↔◌, ℕ, ◌+◌, ◌*◌, ◌<◌, String, Bool, false, Option, none, some, arith}
use nouva_agent.Release.Phases.{Outcome}
use nouva_agent.Release.Recovery.{
  DateParse, Observation, missing, created, running, start, wait, declare_unknown,
  read_timestamp_ms, classify_release_job_exit, decide_release_job_recovery, classify_timed,
}

-- A job's run as the container recorded it: no reading of a timestamp, or both and how long it ran.
abbrev pub RanShort : Option ℕ → Option ℕ → ℕ → Bool → Type 0
RanShort (some started) (some finished) timeout stopped = finished < started + timeout * 1000
RanShort _ _ timeout stopped = stopped ≡ false

module _ (parse : DateParse) where
  classify_timed_iff :
      (code : ℕ) (started finished : Option ℕ) (timeout : ℕ) (stopped : Bool)
      → (classify_timed parse code started finished timeout stopped ≡ Outcome.succeeded)
        ↔ ((code ≡ 0) × RanShort started finished timeout stopped)
  unfolding classify_timed
  classify_timed_iff code none finished timeout stopped = ground arith
  classify_timed_iff code (some s) none timeout stopped = ground arith
  classify_timed_iff code (some s) (some f) timeout stopped = ground arith

  -- A job succeeded exactly when it exited with 0 and was not at its deadline: by its timestamps
  -- where both can be read, and else by whether the agent stopped it.
  pub classify-succeeded_iff :
      (code : ℕ) (started finished : Option String) (timeout : ℕ) (stopped : Bool)
      → (classify_release_job_exit parse code started finished timeout stopped ≡ Outcome.succeeded)
        ↔ ((code ≡ 0)
            × RanShort
                (read_timestamp_ms parse started)
                (read_timestamp_ms parse finished)
                timeout
                stopped)
  unfolding classify_release_job_exit
  classify-succeeded_iff code started finished timeout stopped =
      classify_timed_iff code (read_timestamp_ms parse started) (read_timestamp_ms parse finished)
        timeout stopped

  -- A resumed attempt's command is started only in a container that was created and never started,
  -- and its outcome is called unknown only when the container is gone.
  pub recovery_starts_iff :
      (o : Observation) (timeout : ℕ)
      → ((decide_release_job_recovery parse o timeout ≡ start) ↔ (o ≡ created))
        × ((decide_release_job_recovery parse o timeout ≡ declare_unknown) ↔ (o ≡ missing))
        × ((decide_release_job_recovery parse o timeout ≡ wait) ↔ (o ≡ running))
  unfolding decide_release_job_recovery
  recovery_starts_iff o timeout = ground arith
