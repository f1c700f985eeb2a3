-- ===== src/Capacity/Budget.antt =====
-- The budget and the limits of packages/runtime/src/server-capacity.ts. A product with a ratio, in
-- floating point and rounded up, is a parameter for each ratio.
use nouva_agent.Prelude.{ℕ, ◌-◌, ◌*◌, ◌/◌, min, max, Option, none, some, if◌then◌else◌, not, ◌&&◌}
use nouva_agent.Prelude.Number.{Number, is_finite, is_above, is_below, whole_part}

abbrev pub gibibyte : ℕ
gibibyte = 1073741824

abbrev pub resource_limit_step_bytes : ℕ
resource_limit_step_bytes = 268435456

abbrev pub cpu_step_millicores : ℕ
cpu_step_millicores = 250

abbrev pub memory_step_bytes : ℕ
memory_step_bytes = 134217728

abbrev pub min_platform_cpu : ℕ
min_platform_cpu = 250

abbrev pub min_platform_memory : ℕ
min_platform_memory = 268435456

abbrev pub min_build_cpu : ℕ
min_build_cpu = 500

abbrev pub max_build_cpu : ℕ
max_build_cpu = 2000

abbrev pub min_build_memory : ℕ
min_build_memory = 536870912

abbrev pub max_build_memory : ℕ
max_build_memory = 2147483648

pub record CapacityQuantity : Type 0 where
  pub cpu_millicores : ℕ
  pub memory_bytes : ℕ

pub record ServerCapacityBudget : Type 0 where
  pub total : CapacityQuantity
  pub platform_reserve : CapacityQuantity
  pub build_reserve : CapacityQuantity
  pub allocatable : CapacityQuantity

-- `Math.ceil(n * 0.1)`, `Math.ceil(n * 0.15)`, `Math.ceil(n * 0.05)`, and
-- `Math.floor((n / GIBIBYTE) * 0.95)`.
pub record Ratios : Type 0 where
  pub tenth : ℕ → ℕ
  pub build_share : ℕ → ℕ
  pub twentieth : ℕ → ℕ
  pub safe_gibibytes : ℕ → ℕ

unfoldable pub to_finite_positive_integer : Option Number → Option ℕ
to_finite_positive_integer none = none
to_finite_positive_integer (some n) =
    if is_finite n && is_above n 0 then some (whole_part n) else none

unfoldable pub to_finite_non_negative_integer : Option Number → Option ℕ
to_finite_non_negative_integer none = none
to_finite_non_negative_integer (some n) =
    if is_finite n && not (is_below n 0) then some (whole_part n) else none

-- `roundDown(a - b - c, step)`, of a difference that may be negative.
unfoldable pub round_down : ℕ → ℕ → ℕ
round_down value step = value / step * step

module _ (r : Ratios) where
  unfoldable pub calculate_build_reserve : CapacityQuantity → CapacityQuantity
  calculate_build_reserve total = record {
    cpu_millicores = min max_build_cpu (max min_build_cpu (r.build_share total.cpu_millicores));
    memory_bytes = min max_build_memory (max min_build_memory (r.build_share total.memory_bytes));
  }

  unfoldable pub platform_reserve_of : CapacityQuantity → CapacityQuantity
  platform_reserve_of total = record {
    cpu_millicores = max min_platform_cpu (r.tenth total.cpu_millicores);
    memory_bytes = max min_platform_memory (r.tenth total.memory_bytes);
  }

  unfoldable pub budget_of : ℕ → ℕ → ServerCapacityBudget
  unfolding calculate_build_reserve platform_reserve_of round_down
  budget_of cores memory =
      let total : CapacityQuantity = record {
        cpu_millicores = cores * 1000;
        memory_bytes = memory;
      } in
      let platform = platform_reserve_of total in
      let build = calculate_build_reserve total in
      record {
        total = total;
        platform_reserve = platform;
        build_reserve = build;
        allocatable = record {
          cpu_millicores =
              round_down (total.cpu_millicores - platform.cpu_millicores - build.cpu_millicores)
                cpu_step_millicores;
          memory_bytes =
              round_down (total.memory_bytes - platform.memory_bytes - build.memory_bytes)
                memory_step_bytes;
        };
      }

  unfoldable pub calculate_server_capacity_budget :
      Option Number → Option Number → Option ServerCapacityBudget
  calculate_server_capacity_budget cpu_cores memory_bytes =
      elim (to_finite_positive_integer cpu_cores) [
        | none ↦ none
        | some cores ↦ elim (to_finite_positive_integer memory_bytes) [
          | none ↦ none
          | some memory ↦ some (budget_of cores memory)
        ]
      ]

pub record ServerCapacityLimits : Type 0 where
  pub max_cpu_millicores : Option ℕ
  pub max_memory_bytes : Option ℕ
  pub safe_storage_size_gb : Option ℕ

abbrev mapped : (ℕ → ℕ) → Option ℕ → Option ℕ
mapped f none = none
mapped f (some n) = some (f n)

unfoldable pub get_server_capacity_limits :
    Ratios → Option Number → Option Number → Option Number → ServerCapacityLimits
unfolding to_finite_positive_integer to_finite_non_negative_integer round_down
get_server_capacity_limits r cpu_cores memory_bytes disk_bytes_available = record {
  max_cpu_millicores = mapped (λ cores. cores * 1000) (to_finite_positive_integer cpu_cores);
  max_memory_bytes =
      mapped (λ m. round_down m resource_limit_step_bytes)
        (to_finite_positive_integer memory_bytes);
  safe_storage_size_gb =
      mapped r.safe_gibibytes (to_finite_non_negative_integer disk_bytes_available);
}
