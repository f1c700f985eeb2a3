-- ===== src/Capacity/Tests.antt =====
-- Runs of the budget and the reservations of a server.
use nouva_agent.Prelude.{◌≡◌, refl, ℕ, ◌*◌, ◌/◌, String, Option, none, some, ◌+◌, false}
use nouva_agent.Prelude.Number.{of_ℕ}
use nouva_agent.Capacity.Budget.{
  Ratios, budget_of, calculate_server_capacity_budget, to_finite_positive_integer,
}
use nouva_agent.Capacity.Storage.{date, size, Volume}
use nouva_agent.Capacity.Laws.{BudgetFits, budget_fits}

abbrev exact : Ratios
exact = record {
  tenth = λ n. (n + 9) / 10;
  build_share = λ n. (15 * n + 99) / 100;
  twentieth = λ n. (n + 19) / 20;
  safe_gibibytes = λ n. 95 * n / 107374182400;
}

small_server :
    calculate_server_capacity_budget exact (some (of_ℕ 2)) (some (of_ℕ 2147483648))
    ≡ some (budget_of exact 2 2147483648)
unfolding calculate_server_capacity_budget to_finite_positive_integer
small_server = refl

budget_fits_example : BudgetFits (budget_of exact 2 2147483648)
budget_fits_example =
    budget_fits exact (some (of_ℕ 2)) (some (of_ℕ 2147483648)) (budget_of exact 2 2147483648)
      small_server

abbrev volume : Volume
volume = record {
  size_gb = size false 10 0;
  used_bytes = some (of_ℕ 4294967296);
  usage_refreshed_at = date (some 1000000);
}

abbrev unparsed : String → Option ℕ
unparsed s = none
