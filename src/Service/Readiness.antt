-- ===== src/Service/Readiness.antt =====
-- agent/src/app-candidate-readiness.ts: what readiness decides of one inspection, and the evidence
-- that it carries from poll to poll. Docker's numbers are whole; sizes of memory may be -1. The
-- texts of the messages are in Readiness/Messages.
pub mod Messages
pub mod Laws
use nouva_agent.Prelude.{
  ℕ, ◌+◌, ◌-◌, max, ◌==◌, ltb, leb, String, str_eq, to_lower, utf16_length, Bool, true, false, not,
  ◌&&◌, ◌||◌, Option, none, some, List, [], ◌∷◌, if◌then◌else◌, get_or_else, or_else, ◌<>◌, decimal,
}
use nouva_agent.Prelude.Names.{is_member}
use nouva_agent.Prelude.Integer.{ℤ, pos, negsuc}
use Messages.{
  Evidence, describe_out_of_memory, describe_terminal_status, describe_restart_loop,
  default_readiness_subject,
}

-- The part of an inspection that readiness reads; `health` holds the status of `State.Health`.
pub record ContainerState : Type 0 where
  pub status : Option String
  pub running : Option Bool
  pub oom_killed : Option Bool
  pub exit_code : Option ℕ
  pub health : Option (Option String)

pub record Inspection : Type 0 where
  pub state : Option ContainerState
  pub restart_count : Option ℤ
  pub memory : Option ℤ
  pub memory_swap : Option ℤ
  -- The values of `NetworkSettings.Networks`, by their addresses.
  pub networks : Option (List (Option String))

pub data Cause : Type 0 where
  out_of_memory restart_loop exited unhealthy : Cause

pub data ReadinessStep : Type 0 where
  ready : ReadinessStep
  failed : (cause : Cause) (message : String) → ReadinessStep
  probe : (ip_address unreachable_message : String) → ReadinessStep
  wait : (message : String) → ReadinessStep

pub record Assessment : Type 0 where
  pub evidence : Evidence
  pub step : ReadinessStep

abbrev pub no_evidence : Evidence
no_evidence = record {
  out_of_memory = false;
  restarts = 0;
  exit_code = none;
  memory_limit_bytes = none;
  memory_swap_limit_bytes = none;
}

abbrev pub restart_loop_threshold : ℕ
restart_loop_threshold = 2

abbrev pub is_terminal : String → Bool
is_terminal status = is_member status ("exited" ∷ "dead" ∷ "removing" ∷ [])

abbrev read_non_negative_integer : Option ℤ → Option ℕ
read_non_negative_integer (some (pos n)) = some n
read_non_negative_integer (some (negsuc n)) = none
read_non_negative_integer none = none

abbrev read_positive_byte_limit : Option ℤ → Option ℕ
read_positive_byte_limit (some (pos n)) = if ltb 0 n then some n else none
read_positive_byte_limit (some (negsuc n)) = none
read_positive_byte_limit none = none

abbrev read_swap_byte_limit : Option ℤ → Option ℤ
read_swap_byte_limit (some (negsuc n)) = if n == 0 then some (negsuc n) else none
read_swap_byte_limit (some (pos n)) = if ltb 0 n then some (pos n) else none
read_swap_byte_limit none = none

abbrev pub lower_status : Option ContainerState → Option String
lower_status none = none
lower_status (some s) = elim s.status [ none ↦ none | some status ↦ some (to_lower status) ]

abbrev pub is_terminated : Option String → Bool
is_terminated none = false
is_terminated (some status) = str_eq status "restarting" || is_terminal status

abbrev pub read_reported_exit_code : Option ContainerState → Option ℕ
read_reported_exit_code none = none
read_reported_exit_code (some s) = elim s.exit_code [
  | none ↦ none
  | some code ↦ if is_terminated (lower_status (some s)) || not (code == 0) then some code else none
]

abbrev pub merge_exit_code : Option ℕ → Option ℕ → Option ℕ
merge_exit_code previous none = previous
merge_exit_code none (some code) = some code
merge_exit_code (some p) (some code) = if code == 0 then some p else some code

-- `x === true` of a field that may be missing.
abbrev is_true : Option Bool → Bool
is_true none = false
is_true (some b) = b

abbrev is_restarting : Option String → Bool
is_restarting none = false
is_restarting (some status) = str_eq status "restarting"

abbrev pub read_out_of_memory : Inspection → ℕ → Option Bool → Bool
read_out_of_memory i observed at_start = elim i.state [
  | none ↦ false
  | some s ↦ if not (is_true s.oom_killed) then false else elim at_start [
    | none ↦ true
    | some up_with_flag ↦
        not up_with_flag
        && (ltb 0 observed || not (is_true s.running) || is_restarting (lower_status (some s)))
  ]
]

-- The restarts, counted with those just before the window.
abbrev pub seen_restarts : ℕ → Option ℤ → ℕ → ℕ → ℕ
seen_restarts previous reported baseline recent =
    max previous (recent + (get_or_else (read_non_negative_integer reported) 0 - baseline))

unfoldable pub record_evidence : Evidence → Inspection → ℕ → ℕ → Option Bool → Evidence
record_evidence previous i baseline recent at_start =
    let restarts = seen_restarts previous.restarts i.restart_count baseline recent in
    record {
      out_of_memory = previous.out_of_memory || read_out_of_memory i (restarts - recent) at_start;
      restarts = restarts;
      exit_code = merge_exit_code previous.exit_code (read_reported_exit_code i.state);
      memory_limit_bytes = or_else (read_positive_byte_limit i.memory) previous.memory_limit_bytes;
      memory_swap_limit_bytes =
          or_else (read_swap_byte_limit i.memory_swap) previous.memory_swap_limit_bytes;
    }

-- The first address that is not empty.
first_address : List (Option String) → Option String
first_address [] = none
first_address (none ∷ rest) = first_address rest
first_address (some ip ∷ rest) =
    let later = first_address rest in if ltb 0 (utf16_length ip) then some ip else later

unfoldable pub resolve_container_ip_address : Inspection → Option String
unfolding first_address
resolve_container_ip_address i = elim i.networks [ none ↦ none | some ns ↦ first_address ns ]

pub record ReadinessInput : Type 0 where
  pub container_name : String
  pub app_port : ℕ
  pub inspection : Inspection
  pub evidence : Evidence
  pub subject : Option String
  pub restart_baseline : Option ℕ
  pub recent_restarts : Option ℕ
  pub out_of_memory_at_start : Option Bool

abbrev pub health_text : Option String → String
health_text none = "unknown"
health_text (some status) = if utf16_length status == 0 then "unknown" else to_lower status

abbrev pub health_step : String → String → String → ReadinessStep
health_step subject name health =
    if str_eq health "healthy"
    then ready
    else if str_eq health "unhealthy"
    then failed unhealthy (subject <> (" " <> (name <> " became unhealthy")))
    else wait (subject <> (" " <> (name <> (" health status is " <> health))))

abbrev pub address_step : String → String → ℕ → Option String → ReadinessStep
address_step subject name port none =
    wait (subject <> (" " <> (name <> " has no routable IP address yet")))
address_step subject name port (some ip) =
    probe ip (subject <> (" " <> (name <> (" is not accepting TCP traffic on " <> decimal port))))

abbrev pub health_of : Option ContainerState → Option (Option String)
health_of none = none
health_of (some s) = s.health

abbrev pub is_down : Option String → Bool
is_down none = false
is_down (some status) = is_terminal status

-- The step for an input, with the evidence that includes its inspection.
unfoldable pub step_of : ReadinessInput → Evidence → ReadinessStep
step_of i e =
    let subject = get_or_else i.subject default_readiness_subject in
    let status = lower_status i.inspection.state in
    if e.out_of_memory
    then failed out_of_memory (describe_out_of_memory subject i.container_name e)
    else if is_down status
    then failed exited (describe_terminal_status subject i.container_name (get_or_else status "") e)
    else if leb restart_loop_threshold e.restarts
    then failed restart_loop (describe_restart_loop subject i.container_name e)
    else elim (health_of i.inspection.state) [
      | some health ↦ health_step subject i.container_name (health_text health)
      | none ↦
          address_step subject i.container_name i.app_port
            (resolve_container_ip_address i.inspection)
    ]

unfoldable pub evidence_after : ReadinessInput → Evidence
evidence_after i =
    record_evidence i.evidence i.inspection (get_or_else i.restart_baseline 0)
      (get_or_else i.recent_restarts 0) i.out_of_memory_at_start

unfoldable pub assess_candidate_readiness : ReadinessInput → Assessment
assess_candidate_readiness i =
    let e = evidence_after i in record { evidence = e; step = step_of i e }
