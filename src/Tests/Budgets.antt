-- ===== src/Tests/Budgets.antt =====
-- The budget forecasts and the workloads at concrete volumes.
use capacity_planning_operat.Prelude.{
  ◌<◌, arith, refl, ◌^◌, List, [], ◌∷◌, Option, some, none, All, if◌then◌else◌,
}
use capacity_planning_operat.Prelude.Int.{ℤ, pos, ◌+ℤ◌, ◌-ℤ◌, add64, sub64, wrap64, quot, ◌*ℤ◌}
use capacity_planning_operat.Prelude.Text.{Str, bytes, str_eq, trim_space}
use capacity_planning_operat.Prelude.Dict.{lookup}
use capacity_planning_operat.Prelude.Float.{Milli, milli_float, Milli-IsOrdered, Milli-HasSigns}
use capacity_planning_operat.Api.{BudgetSpec, PvcSummary}
use capacity_planning_operat.Plan.Budget.{
  build_budget_forecasts, namespace_forecasts, workload_forecasts, parse_budget_bytes, forecast,
  tally, budget_breach_projection, belongs_to,
}
use capacity_planning_operat.Plan.Budget.Forecasts.{
  IsSound, in_namespace, total_used, build_budget_forecasts-IsSound,
}
use capacity_planning_operat.Plan.Budget.Order.{build_budget_forecasts-IsSorted, IsInOrder}
use capacity_planning_operat.Plan.Workload.{Pod}
use capacity_planning_operat.Tests.{shop, disk, summary}

abbrev budgets : BudgetSpec
budgets = record {
  namespace_budgets = record { namespace = shop; budget = bytes "1k" } ∷ [];
  workload_budgets = [];
}

-- A parser that knows the one quantity that the budget names.
abbrev quantity : Str → Option ℤ
quantity s = if str_eq s (bytes "1k") then some (pos 1000) else none

abbrev stock : List (PvcSummary Milli)
stock = summary disk 10 ∷ []

stock_small : total_used stock < 2 ^ 63
unfolding total_used
stock_small = omega arith

build_budget_forecasts-IsSound_example :
    let out = build_budget_forecasts quantity (pos 9) stock [] budgets [] in
    All (IsSound (pos 9) stock in_namespace) out.0
    × All (IsSound (pos 9) stock (belongs_to [])) out.1
build_budget_forecasts-IsSound_example =
    build_budget_forecasts-IsSound Milli-HasSigns quantity (pos 9) stock [] (refl, tt) stock_small
      budgets []

build_budget_forecasts-IsSorted_example :
    let out = build_budget_forecasts quantity (pos 9) stock [] budgets [] in
    IsInOrder (namespace_forecasts quantity (pos 9) stock [] budgets.namespace_budgets) out.0
    × IsInOrder (workload_forecasts quantity (pos 9) stock [] [] budgets.workload_budgets) out.1
unfolding namespace_forecasts workload_forecasts trim_space parse_budget_bytes str_eq forecast tally
    budget_breach_projection lookup add64 wrap64 ◌+ℤ◌ ◌*ℤ◌ quot sub64 ◌-ℤ◌
build_budget_forecasts-IsSorted_example =
    build_budget_forecasts-IsSorted Milli-IsOrdered quantity (pos 9) stock [] budgets [] (refl, tt)
      tt

abbrev pod : Pod
pod = record {
  name = bytes "p1";
  namespace = shop;
  volumes = some disk ∷ [];
  owner_references = [];
}
