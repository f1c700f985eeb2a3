-- ===== src/Service/Limits.antt =====
-- agent/src/docker-resource-limits.ts. A field is any JavaScript value; an error keeps its field in
-- place of its text. The products are exact below 2^53.
pub mod Laws
use nouva_agent.Prelude.{
  ℕ, ◌*◌, ◌==◌, ltb, Bool, true, false, not, ◌&&◌, Option, none, some, List, [], ◌∷◌, ◌++◌,
  if◌then◌else◌,
}
use nouva_agent.Prelude.Number.{Number, is_integer, is_finite, is_above, whole_part}

pub data Value : Type 0 where
  undefined other : Value
  number : Number → Value

pub record DockerResourceSettings : Type 0 where
  pub nano_cpus : ℕ
  pub memory : ℕ
  pub memory_swap : ℕ
  pub pids_limit : ℕ

pub data FieldName : Type 0 where
  cpu_millicores memory_bytes memory_and_swap_bytes pids_limit_field : FieldName

pub data Problem : Type 0 where
  incomplete : Problem
  not_positive_integer : FieldName → Problem
  below_memory : (swap memory : ℕ) → Problem

pub data Outcome (A : Type 0) : Type 0 where
  settled : A → Outcome A
  refused : Problem → Outcome A

infixl 1 ◌>>=◌
abbrev ◌>>=◌ : {A B : Type 0} → Outcome A → (A → Outcome B) → Outcome B
settled a >>= f = f a
refused p >>= f = refused p

-- The fields of a payload; `none` for one that it does not have.
pub record ResourceLimits : Type 0 where
  pub cpu : Option Value
  pub memory : Option Value
  pub memory_and_swap : Option Value
  pub pids : Option Value

abbrev pub is_positive_integer : Value → Bool
is_positive_integer (number n) = is_finite n && is_integer n && is_above n 0
is_positive_integer _ = false

abbrev value_of : Option Value → Value
value_of none = undefined
value_of (some v) = v

abbrev amount : Value → ℕ
amount (number n) = whole_part n
amount _ = 0

unfoldable pub to_positive_integer_field : Value → FieldName → Outcome ℕ
to_positive_integer_field v field =
    if is_positive_integer v then settled (amount v) else refused (not_positive_integer field)

at_least_memory : ℕ → ℕ → Outcome ℕ
at_least_memory memory swap =
    if ltb swap memory then refused (below_memory swap memory) else settled swap

unfoldable pub resolve_memory_and_swap_bytes : Value → ℕ → Outcome ℕ
unfolding to_positive_integer_field at_least_memory
resolve_memory_and_swap_bytes undefined memory = settled memory
resolve_memory_and_swap_bytes v memory = do
  swap ← to_positive_integer_field v memory_and_swap_bytes
  at_least_memory memory swap

abbrev pub is_complete : ResourceLimits → Bool
is_complete r = is_own r.cpu && is_own r.memory && is_own r.pids
  where
    is_own : Option Value → Bool
    is_own none = false
    is_own (some v) = true

-- `none` for a payload that is no object.
unfoldable pub to_docker_resource_settings : Option ResourceLimits → Outcome DockerResourceSettings
unfolding to_positive_integer_field resolve_memory_and_swap_bytes
to_docker_resource_settings none = refused incomplete
to_docker_resource_settings (some r) = if not (is_complete r) then refused incomplete else (do
  memory ← to_positive_integer_field (value_of r.memory) memory_bytes
  pids ← to_positive_integer_field (value_of r.pids) pids_limit_field
  cpu ← to_positive_integer_field (value_of r.cpu) cpu_millicores
  swap ← resolve_memory_and_swap_bytes (value_of r.memory_and_swap) memory
  settled (record {
    nano_cpus = cpu * 1000000;
    memory = memory;
    memory_swap = swap;
    pids_limit = pids;
  }))

-- What a container was read back with.
pub record Applied : Type 0 where
  pub nano_cpus : Option ℕ
  pub memory : Option ℕ
  pub memory_swap : Option ℕ
  pub pids_limit : Option ℕ

pub data SettingName : Type 0 where
  nano_cpus_setting memory_setting memory_swap_setting pids_limit_setting : SettingName

abbrev mismatch : SettingName → Option ℕ → ℕ → List SettingName
mismatch name none expected = name ∷ []
mismatch name (some n) expected = if n == expected then [] else name ∷ []

-- The settings that the error of `assertAppliedDockerResourceSettings` names; none for no error.
unfoldable pub applied_mismatches : Applied → DockerResourceSettings → List SettingName
applied_mismatches a requested =
    mismatch nano_cpus_setting a.nano_cpus requested.nano_cpus
    ++ (mismatch memory_setting a.memory requested.memory
        ++ (mismatch memory_swap_setting a.memory_swap requested.memory_swap
            ++ mismatch pids_limit_setting a.pids_limit requested.pids_limit))
