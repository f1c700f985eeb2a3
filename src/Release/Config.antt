-- ===== src/Release/Config.antt =====
-- The release configuration of a service: `validateServiceReleaseConfig` and
-- `normalizeServiceReleaseConfig` of packages/runtime/src/release-phases.ts.
pub mod Laws
use nouva_agent.Prelude.{
  ℕ, ◌==◌, String, ◌<>◌, Bool, true, false, not, ◌||◌, ltb, Option, none, some, or_else,
  if◌then◌else◌, trim, utf16_length, includes_code, to_lower, decimal,
}
use nouva_agent.Prelude.Number.{Number, is_integer, is_below, is_above}
use nouva_agent.Release.Phases.{Phase, pre_activation, verification, Policy, keep, rollback}

abbrev pub command_max_length : ℕ
command_max_length = 8000

abbrev pub min_seconds : Phase → ℕ
min_seconds pre_activation = 10
min_seconds verification = 5

abbrev pub max_seconds : Phase → ℕ
max_seconds pre_activation = 3600
max_seconds verification = 900

pub record JobConfig : Type 0 where
  pub command : String
  pub timeout_seconds : Number

-- `onFailure` may hold a value outside the vocabulary, which is `none`.
pub record VerificationConfig : Type 0 where
  pub command : String
  pub timeout_seconds : Number
  pub on_failure : Option Policy

pub record ReleaseConfig : Type 0 where
  pub pre : Option JobConfig
  pub verify : Option VerificationConfig

pub data ServiceType : Type 0 where
  app worker : ServiceType

unfoldable pub describe_release_command_problem : String → String → Option String
describe_release_command_problem label command =
    if utf16_length (trim command) == 0
    then some (label <> " command is required; remove the " <> to_lower label <> " to disable it")
    else if ltb command_max_length (utf16_length command)
    then some (label <> " command must be 8,000 characters or less")
    else if includes_code 0 command
    then some (label <> " command must not contain NUL characters")
    else none

unfoldable pub describe_timeout_problem : String → Phase → Number → Option String
describe_timeout_problem label phase seconds =
    if not (is_integer seconds)
      || is_below seconds (min_seconds phase)
      || is_above seconds (max_seconds phase)
    then some (
        label
        <> " timeout must be a whole number of seconds from "
        <> decimal (min_seconds phase)
        <> " through "
        <> decimal (max_seconds phase))
    else none

pre_problem : Option JobConfig → Option String
unfolding describe_release_command_problem describe_timeout_problem
pre_problem none = none
pre_problem (some c) =
    or_else (describe_release_command_problem "Pre-activation job" c.command)
      (describe_timeout_problem "Pre-activation job" pre_activation c.timeout_seconds)

abbrev pub rollback_unsupported : String
rollback_unsupported =
    "Worker services keep a deployment whose verification fails; roll back explicitly from the deployment list"

policy_problem : ServiceType → Option Policy → Option String
policy_problem service none = some "Verification failure policy must be keep or rollback"
policy_problem worker (some rollback) = some rollback_unsupported
policy_problem service (some policy) = none

verify_problem : ServiceType → Option VerificationConfig → Option String
unfolding describe_release_command_problem describe_timeout_problem policy_problem
verify_problem service none = none
verify_problem service (some c) =
    or_else
      (or_else (describe_release_command_problem "Verification" c.command)
        (describe_timeout_problem "Verification" verification c.timeout_seconds))
      (policy_problem service c.on_failure)

-- The first problem of a configuration, or `none` when it may be stored.
unfoldable pub validate_service_release_config : ReleaseConfig → ServiceType → Option String
unfolding pre_problem verify_problem
validate_service_release_config config service =
    or_else (pre_problem config.pre) (verify_problem service config.verify)

trim_pre : Option JobConfig → Option JobConfig
trim_pre none = none
trim_pre (some c) = some (record c { command = trim c.command })

trim_verify : Option VerificationConfig → Option VerificationConfig
trim_verify none = none
trim_verify (some c) = some (record c { command = trim c.command })

is_some {ℓ} : {A : Type ℓ} → Option A → Bool
is_some none = false
is_some (some a) = true

has_phase : ReleaseConfig → Bool
unfolding is_some
has_phase c = is_some c.pre || is_some c.verify

-- Trims the commands, and folds a configuration with no phase into none.
unfoldable pub normalize_service_release_config : Option ReleaseConfig → Option ReleaseConfig
unfolding trim_pre trim_verify is_some has_phase
normalize_service_release_config none = none
normalize_service_release_config (some c) =
    if has_phase c
    then some (record { pre = trim_pre c.pre; verify = trim_verify c.verify })
    else none
