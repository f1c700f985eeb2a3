-- ===== src/Capacity/Laws.antt =====
-- What the budget and the reservations of a server are bounded by.
use nouva_agent.Prelude.{
  get_or_else, ap, subst, Option-cases, leb, leb→le, ◌≡◌, refl, ℕ, ◌-◌, ◌+◌, ◌≤◌, Option, none,
  some, arith, ◌⊎◌, inl, inr, Bool-cases,
}
use nouva_agent.Prelude.Number.{Number}
use nouva_agent.Capacity.Budget.{
  to_finite_positive_integer, round_down, Ratios, ServerCapacityBudget,
  calculate_server_capacity_budget, budget_of, cpu_step_millicores, memory_step_bytes,
}
use nouva_agent.Capacity.Storage.{Reservation, fresh}

-- A part fits beside the reserves, or is nothing.
abbrev pub Fits : ℕ → ℕ → ℕ → ℕ → Type 0
Fits total platform build allocatable = (allocatable + platform + build ≤ total) ⊎ (allocatable ≡ 0)

Fits-down :
    (total platform build step : ℕ)
    → (v : ℕ) → round_down v step ≤ v
    → v ≡ total - platform - build
    → Fits total platform build (round_down v step)
Fits-down total platform build step v small e = elim (Bool-cases (leb (platform + build) total)) [
  | inl room ↦ inl (omega (arith, small, e, leb→le (platform + build) total room))
  | inr none_left ↦ inr (ground arith)
]

down_250 : (v : ℕ) → round_down v cpu_step_millicores ≤ v
unfolding round_down
down_250 v = omega arith

down_128m : (v : ℕ) → round_down v memory_step_bytes ≤ v
unfolding round_down
down_128m v = omega arith

abbrev pub BudgetFits : ServerCapacityBudget → Type 0
BudgetFits b =
    Fits b.total.cpu_millicores b.platform_reserve.cpu_millicores b.build_reserve.cpu_millicores
      b.allocatable.cpu_millicores
    × Fits b.total.memory_bytes b.platform_reserve.memory_bytes b.build_reserve.memory_bytes
        b.allocatable.memory_bytes

budget_of-Fits : (r : Ratios) (cores memory : ℕ) → BudgetFits (budget_of r cores memory)
unfolding budget_of
budget_of-Fits r cores memory =
    let b = budget_of r cores memory in
    (
      Fits-down b.total.cpu_millicores b.platform_reserve.cpu_millicores
          b.build_reserve.cpu_millicores cpu_step_millicores _ (down_250 _) refl,
      Fits-down b.total.memory_bytes b.platform_reserve.memory_bytes b.build_reserve.memory_bytes
          memory_step_bytes _ (down_128m _) refl,
    )

some_inj : {A : Type 0} {a b : A} → some a ≡ some b → a ≡ b
some_inj {A} {a} e = ap (λ o. get_or_else o a) e

-- A server's budget never promises the same capacity twice: of CPU, and of memory, what workloads
-- may allocate fits beside the reserves for the platform and for a build, or is nothing at all. This
-- holds whatever the ratios round to.
pub budget_fits :
    (r : Ratios) (cpu memory : Option Number) (b : ServerCapacityBudget)
    → calculate_server_capacity_budget r cpu memory ≡ some b
    → BudgetFits b
unfolding calculate_server_capacity_budget
budget_fits r cpu memory b e = elim (Option-cases (to_finite_positive_integer cpu)) [
  | inl no_cpu ↦ absurd (ground (arith, e, no_cpu))
  | inr (cores, c) ↦ elim (Option-cases (to_finite_positive_integer memory)) [
    | inl no_memory ↦ absurd (ground (arith, e, c, no_memory))
    | inr (bytes, m) ↦
        subst (λ x. BudgetFits x) (some_inj (rw (calculate_server_capacity_budget, c, m) at e))
          (budget_of-Fits r cores bytes)
  ]
]

abbrev pub IsConsistent : Reservation → Type 0
IsConsistent c =
    (c.credited_usage_bytes ≤ c.committed_reservation_bytes)
    × ((c.overcommit_bytes ≡ 0) ⊎ (c.available_reservation_bytes ≡ some 0))
    × ((c.available_reservation_bytes ≡ none) ⊎ (c.telemetry_status ≡ fresh))
