-- ===== src/Release/Config/Laws.antt =====
-- What `validateServiceReleaseConfig` accepts, and what normalising keeps.
use nouva_agent.Prelude.{
  ◌≡◌, refl, ◌≤◌, ◌↔◌, String, Option, none, some, true, false, arith, trim, utf16_length,
  includes_code, ◌≢◌,
}
use nouva_agent.Prelude.Number.{Number, finite, nan, infinite}
use nouva_agent.Prelude.Trim.{trim_idem}
use nouva_agent.Release.Phases.{Phase, pre_activation, verification, Policy, rollback}
use nouva_agent.Release.Config.{
  command_max_length, min_seconds, max_seconds, JobConfig, VerificationConfig, ReleaseConfig,
  ServiceType, worker, describe_release_command_problem, describe_timeout_problem,
  validate_service_release_config, normalize_service_release_config,
}

-- A command that may be stored: not blank, short enough, and without NUL.
pub record IsCommand (command : String) : Type 0 where
  pub not_blank : utf16_length (trim command) ≢ 0
  pub short : utf16_length command ≤ command_max_length
  pub no_nul : includes_code 0 command ≡ false

-- A whole number of seconds within the limits of the phase. A negative zero is below them.
abbrev pub IsTimeout : Phase → Number → Type 0
IsTimeout phase (finite false whole rest) =
    (rest ≡ 0) × (min_seconds phase ≤ whole) × (whole ≤ max_seconds phase)
IsTimeout phase _ = ⊥

abbrev pub IsPolicy : ServiceType → Option Policy → Type 0
IsPolicy service none = ⊥
IsPolicy worker (some rollback) = ⊥
IsPolicy service (some policy) = Unit

abbrev pub IsPre : Option JobConfig → Type 0
IsPre none = Unit
IsPre (some c) = IsCommand c.command × IsTimeout pre_activation c.timeout_seconds

abbrev pub IsVerify : ServiceType → Option VerificationConfig → Type 0
IsVerify service none = Unit
IsVerify service (some c) =
    IsCommand c.command × IsTimeout verification c.timeout_seconds × IsPolicy service c.on_failure

IsCommand-problem_iff :
    (label command : String)
    → (describe_release_command_problem label command ≡ none) ↔ IsCommand command
unfolding describe_release_command_problem
IsCommand-problem_iff label command = (λ e. ground arith, λ v. ground arith)

IsTimeout-problem_iff :
    (label : String) (phase : Phase) (seconds : Number)
    → (describe_timeout_problem label phase seconds ≡ none) ↔ IsTimeout phase seconds
unfolding describe_timeout_problem
IsTimeout-problem_iff label phase nan = ground arith
IsTimeout-problem_iff label phase (infinite b) = ground arith
IsTimeout-problem_iff label pre_activation (finite true whole rest) = ground arith
IsTimeout-problem_iff label verification (finite true whole rest) = ground arith
IsTimeout-problem_iff label phase (finite false whole rest) = (λ e. ground arith, λ v. ground arith)

-- A configuration has no problem exactly when each phase that it has is a storable command with a
-- timeout in range and, for a verification, a known policy that is not a rollback of a worker.
pub validate_iff :
    (config : ReleaseConfig) (service : ServiceType)
    → (validate_service_release_config config service ≡ none)
      ↔ (IsPre config.pre × IsVerify service config.verify)
unfolding validate_service_release_config
validate_iff config service = (λ e. ground arith, λ v. ground arith)

normalize_parts :
    (p : Option JobConfig) (v : Option VerificationConfig)
    → let once = normalize_service_release_config (some (record { pre = p; verify = v })) in
      normalize_service_release_config once ≡ once
unfolding normalize_service_release_config
normalize_parts none none = refl
normalize_parts (some c) none = rw (trim_idem c.command)
normalize_parts none (some d) = rw (trim_idem d.command)
normalize_parts (some c) (some d) = rw (trim_idem c.command, trim_idem d.command)

-- Normalising a second time changes nothing.
normalize_idem :
    (config : Option ReleaseConfig)
    → normalize_service_release_config (normalize_service_release_config config)
      ≡ normalize_service_release_config config
unfolding normalize_service_release_config
normalize_idem none = refl
normalize_idem (some c) = normalize_parts c.pre c.verify
