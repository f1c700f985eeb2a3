-- ===== src/Worker/Reports.antt =====
-- The shutdown policy and the shutdown reports as they arrive, and the fields that are passed on:
-- packages/runtime/src/worker-shutdown.ts. An object is given by its fields, each any JSON value or
-- missing.
pub mod Laws
use nouva_agent.Prelude.{
  ℕ, ◌==◌, leb, String, str_eq, utf16_length, Bool, true, false, not, ◌&&◌, ◌||◌, Option, none,
  some, List, [], ◌∷◌, map, if◌then◌else◌,
}
use nouva_agent.Prelude.Names.{is_member}
use nouva_agent.Prelude.Number.{
  Number, is_integer, is_finite, is_below, is_above, whole_part, round, of_ℕ,
}
use nouva_agent.Worker.Policy.{
  ShutdownPolicy, RolloutPolicy, overlap, no_overlap, Role, previous, surplus, candidate,
  StopOutcome, exited, forced, already_stopped, hung, unconfirmed, shutdown_signals,
  min_grace_seconds, max_grace_seconds,
}
use nouva_agent.Worker.Signal.{is_worker_stop_signal_name}

pub data Value : Type 0 where
  null missing other : Value
  text : String → Value
  number : Number → Value

pub record PolicyFields : Type 0 where
  pub signal : Value
  pub grace_seconds : Value
  pub rollout_policy : Value

abbrev pub read_signal : Value → Option (Option String)
read_signal null = some none
read_signal (text s) = if is_member s shutdown_signals then some (some s) else none
read_signal _ = none

abbrev pub is_grace_seconds : Number → Bool
is_grace_seconds n =
    is_integer n && not (is_below n min_grace_seconds) && not (is_above n max_grace_seconds)

abbrev pub read_grace_seconds : Value → Option ℕ
read_grace_seconds (number n) = if is_grace_seconds n then some (whole_part n) else none
read_grace_seconds _ = none

abbrev pub rollout_text : RolloutPolicy → String
rollout_text overlap = "overlap"
rollout_text no_overlap = "no_overlap"

abbrev pub read_rollout_policy : Value → Option RolloutPolicy
read_rollout_policy (text s) =
    if str_eq s "overlap"
    then some overlap
    else if str_eq s "no_overlap"
    then some no_overlap
    else none
read_rollout_policy _ = none

-- `none` for a value that is no object.
unfoldable pub parse_worker_shutdown_policy : Option PolicyFields → Option ShutdownPolicy
parse_worker_shutdown_policy none = none
parse_worker_shutdown_policy (some f) = elim (read_signal f.signal) [
  | none ↦ none
  | some signal ↦ elim (read_grace_seconds f.grace_seconds) [
    | none ↦ none
    | some grace ↦ elim (read_rollout_policy f.rollout_policy) [
      | none ↦ none
      | some rollout ↦
          some (record { signal = signal; grace_seconds = grace; rollout_policy = rollout })
    ]
  ]
]

pub record ReportFields : Type 0 where
  pub container_name : Value
  pub role : Value
  pub signal : Value
  pub grace_seconds : Value
  pub outcome : Value
  pub exit_code : Value
  pub elapsed_ms : Value

pub record ShutdownReport : Type 0 where
  pub container_name : String
  pub role : Role
  pub signal : String
  pub grace_seconds : ℕ
  pub outcome : StopOutcome
  pub exit_code : Option Number
  pub elapsed_ms : ℕ

abbrev read_name : Value → Option String
read_name (text s) = if utf16_length s == 0 then none else some s
read_name _ = none

abbrev read_role : Value → Option Role
read_role (text s) =
    if str_eq s "previous"
    then some previous
    else if str_eq s "surplus"
    then some surplus
    else if str_eq s "candidate"
    then some candidate
    else none
read_role _ = none

abbrev pub read_signal_name : Value → Option String
read_signal_name (text s) = if is_worker_stop_signal_name s then some s else none
read_signal_name _ = none

abbrev read_outcome : Value → Option StopOutcome
read_outcome (text s) =
    if str_eq s "exited"
    then some exited
    else if str_eq s "forced"
    then some forced
    else if str_eq s "already_stopped"
    then some already_stopped
    else if str_eq s "hung"
    then some hung
    else if str_eq s "unconfirmed"
    then some unconfirmed
    else none
read_outcome _ = none

abbrev read_exit_code : Value → Option (Option Number)
read_exit_code null = some none
read_exit_code (number n) = if is_integer n then some (some n) else none
read_exit_code _ = none

abbrev read_elapsed_ms : Value → Option ℕ
read_elapsed_ms (number n) = if is_finite n && not (is_below n 0) then some (round n) else none
read_elapsed_ms _ = none

infixl 1 ◌>>=◌
abbrev ◌>>=◌ : {A B : Type 0} → Option A → (A → Option B) → Option B
none >>= f = none
some a >>= f = f a

unfoldable pub parse_worker_shutdown_report : Option ReportFields → Option ShutdownReport
parse_worker_shutdown_report none = none
parse_worker_shutdown_report (some f) = do
  name ← read_name f.container_name
  role ← read_role f.role
  signal ← read_signal_name f.signal
  grace ← read_grace_seconds f.grace_seconds
  outcome ← read_outcome f.outcome
  code ← read_exit_code f.exit_code
  elapsed ← read_elapsed_ms f.elapsed_ms
  some (record {
    container_name = name;
    role = role;
    signal = signal;
    grace_seconds = grace;
    outcome = outcome;
    exit_code = code;
    elapsed_ms = elapsed;
  })

abbrev kept : Option ShutdownReport → List ShutdownReport → List ShutdownReport
kept none rs = rs
kept (some r) rs = r ∷ rs

-- The entries of an array, each `none` when it is no object.
unfoldable pub parse_entries : List (Option ReportFields) → List ShutdownReport
unfolding parse_worker_shutdown_report
parse_entries [] = []
parse_entries (v ∷ vs) = let rest = parse_entries vs in kept (parse_worker_shutdown_report v) rest

-- `none` for a value that is no array.
unfoldable pub parse_worker_shutdown_reports :
    Option (List (Option ReportFields)) → List ShutdownReport
unfolding parse_entries
parse_worker_shutdown_reports none = []
parse_worker_shutdown_reports (some vs) = parse_entries vs

-- The rollout's own fields, each `none` when the object does not have it.
pub record RolloutFields : Type 0 where
  pub policy : Option (Option PolicyFields)
  pub shutdowns : Option (Option (List (Option ReportFields)))

pub record SanitizedFields : Type 0 where
  pub policy : Option (Option ShutdownPolicy)
  pub shutdowns : Option (List ShutdownReport)

abbrev pub redact : (String → String) → ShutdownReport → ShutdownReport
redact f r = record r { container_name = f r.container_name }

abbrev on_own : {A B : Type 0} → (A → B) → Option A → Option B
on_own f none = none
on_own f (some a) = some (f a)

unfoldable pub sanitize_worker_rollout_shutdown_fields :
    RolloutFields → (String → String) → SanitizedFields
sanitize_worker_rollout_shutdown_fields rollout redact_container_name = record {
  policy = on_own parse_worker_shutdown_policy rollout.policy;
  shutdowns =
      on_own (λ v. map (redact redact_container_name) (parse_worker_shutdown_reports v))
        rollout.shutdowns;
}
