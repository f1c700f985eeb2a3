-- ===== src/Service/Readiness/Messages.antt =====
-- The evidence of agent/src/app-candidate-readiness.ts and the texts that describe a failure.
use nouva_agent.Prelude.{
  ℕ, ◌+◌, ◌*◌, ◌/◌, ◌%◌, ◌==◌, ltb, String, ◌<>◌, decimal, Bool, Option, none, some, List, [], ◌∷◌,
  ◌++◌, if◌then◌else◌,
}
use nouva_agent.Prelude.Integer.{ℤ, pos, negsuc}

pub record Evidence : Type 0 where
  pub out_of_memory : Bool
  pub restarts : ℕ
  pub exit_code : Option ℕ
  pub memory_limit_bytes : Option ℕ
  -- -1 for an unlimited allowance.
  pub memory_swap_limit_bytes : Option ℤ

abbrev pub default_readiness_subject : String
default_readiness_subject = "Candidate container"

-- `value.toFixed(1)` of bytes in a unit: the nearest tenth, the larger of two.
to_fixed_1 : ℕ → ℕ → String
to_fixed_1 bytes unit =
    let tenths = (20 * bytes + unit) / (2 * unit) in
    decimal (tenths / 10) <> ("." <> decimal (tenths % 10))

in_unit : ℕ → ℕ → String → String
unfolding to_fixed_1
in_unit bytes unit name =
    (if (bytes % unit) == 0 then decimal (bytes / unit) else to_fixed_1 bytes unit) <> (" " <> name)

unfoldable pub format_byte_size : ℕ → String
unfolding in_unit
format_byte_size bytes =
    if ltb bytes 1073741824 then in_unit bytes 1048576 "MiB" else in_unit bytes 1073741824 "GiB"

unfoldable pub format_restarts : ℕ → String
format_restarts restarts = decimal restarts <> (" restart" <> (if restarts == 1 then "" else "s"))

swap_limit : ℕ → Option ℤ → List String
swap_limit memory none = []
swap_limit memory (some (negsuc n)) = if n == 0 then "swap unlimited" ∷ [] else []
swap_limit memory (some (pos swap)) =
    if swap == memory
    then "swap disabled" ∷ []
    else if ltb memory swap
    then ("memory and swap limit " <> format_byte_size swap) ∷ []
    else []

unfoldable pub describe_memory_limits : Evidence → List String
unfolding swap_limit
describe_memory_limits e = elim e.memory_limit_bytes [
  | none ↦ []
  | some memory ↦
      ("memory limit " <> format_byte_size memory) ∷ swap_limit memory e.memory_swap_limit_bytes
]

-- `details.join(", ")`.
unfoldable pub join_details : List String → String
join_details [] = ""
join_details (d ∷ []) = d
join_details (d ∷ ds) = d <> (", " <> join_details ds)

parenthesised : List String → String
parenthesised [] = ""
parenthesised ds = " (" <> (join_details ds <> ")")

unfoldable pub describe_out_of_memory : String → String → Evidence → String
unfolding parenthesised
describe_out_of_memory subject name e =
    let details =
      describe_memory_limits e
      ++ (if ltb 0 e.restarts then format_restarts e.restarts ∷ [] else []) in
    subject
    <> (" "
        <> (name
            <> (" ran out of memory and was killed"
                <> (parenthesised details <> "; raise the service memory limit and redeploy"))))

last_exit_code : Option ℕ → List String
last_exit_code none = []
last_exit_code (some code) = ("last exit code " <> decimal code) ∷ []

unfoldable pub describe_restart_loop : String → String → Evidence → String
unfolding last_exit_code
describe_restart_loop subject name e =
    let details = format_restarts e.restarts ∷ last_exit_code e.exit_code in
    subject
    <> (" "
        <> (name
            <> (" keeps restarting ("
                <> (join_details details
                    <> "); the process is exiting instead of serving traffic"))))

exit_suffix : Option ℕ → String
exit_suffix none = ""
exit_suffix (some code) = ", exit code " <> decimal code

unfoldable pub describe_terminal_status : String → String → String → Evidence → String
unfolding exit_suffix
describe_terminal_status subject name status e =
    subject
    <> (" " <> (name <> (" is not running (" <> (status <> (exit_suffix e.exit_code <> ")")))))
