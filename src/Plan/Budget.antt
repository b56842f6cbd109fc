-- ===== src/Plan/Budget.antt =====
-- buildBudgetForecasts and below in internal/controller/capacityplan_controller.go: when a storage
-- budget will be used up. `resource.ParseQuantity` and `Value` are a parameter, `none` for an error.
pub mod Forecasts
pub mod Order
use capacity_planning_operat.Prelude.{
  ◌*◌, Bool, false, ◌&&◌, ◌||◌, List, [], ◌∷◌, Option, none, some, if◌then◌else◌,
}
use capacity_planning_operat.Prelude.Int.{ℤ, pos, leb_ℤ, add64, sub64}
use capacity_planning_operat.Prelude.Text.{
  Str, bytes, is_empty, str_eq, str_lt, trim_space, equal_fold,
}
use capacity_planning_operat.Prelude.Sort.{sort_slice}
use capacity_planning_operat.Prelude.Dict.{Dict, lookup}
use capacity_planning_operat.Prelude.Float.{Float64, nought}
use capacity_planning_operat.Api.{
  PvcSummary, StorageBudgetForecast, NamespaceBudgetSpec, WorkloadBudgetSpec, BudgetSpec,
}
use capacity_planning_operat.Metrics.{key_of}
use capacity_planning_operat.Plan.Signals.{PvcRiskSignal, days_ahead}
use capacity_planning_operat.Plan.TopRisks.{PvcWorkloadRef, days_or_max}

abbrev pub keep {ℓ} : {A : Type ℓ} → Option A → List A → List A
keep none xs = xs
keep (some x) xs = x ∷ xs

unfoldable pub parse_budget_bytes : (Str → Option ℤ) → Str → Option ℤ
parse_budget_bytes parse_quantity raw = parse_quantity (trim_space raw)

-- The volumes that a namespace budget, or a workload budget, counts.
abbrev pub is_in : {F : Type 0} → Str → PvcSummary F → Bool
is_in namespace s = str_eq s.namespace namespace

abbrev runs_for : Option PvcWorkloadRef → Str → Str → Bool
runs_for none kind name = false
runs_for (some ref) kind name = equal_fold ref.kind kind && str_eq ref.name name

abbrev pub belongs_to : {F : Type 0} → Dict PvcWorkloadRef → Str → Str → Str → PvcSummary F → Bool
belongs_to workloads namespace kind name s =
    is_in namespace s && runs_for (lookup (key_of s.namespace s.name) workloads) kind name

module _ {F : Type 0} ⦃float : Float64 F⦄ where
  open float use {of_int, add, mul, div, lt, le, eq}

  unfoldable pub budget_breach_projection : ℤ → ℤ → ℤ → F → Option F × Option ℤ
  budget_breach_projection now used budget growth =
      let days = div (of_int (sub64 budget used)) growth in
      let left = if lt days nought then nought else days in
      if leb_ℤ budget (pos 0)
      then (none, none)
      else (if leb_ℤ budget used
          then (some nought, some now)
          else (if le growth nought then (none, none) else (some left, some (days_ahead now left))))

  unfoldable pub forecast_sort_less : StorageBudgetForecast F → StorageBudgetForecast F → Bool
  forecast_sort_less a b =
      let ad = days_or_max a.days_until_breach in
      let bd = days_or_max b.days_until_breach in
      if eq ad bd
      then (if str_eq a.namespace b.namespace
          then (if str_eq a.kind b.kind then str_lt a.name b.name else str_lt a.kind b.kind)
          else str_lt a.namespace b.namespace)
      else lt ad bd

  -- A missing key reads as a signal of zeros.
  abbrev pub growth_of : Option (PvcRiskSignal F) → F
  growth_of none = nought
  growth_of (some s) = s.weekly_growth_bytes_per_day

  -- The loop over the summaries that adds up the used bytes, and the growth, of those counted.
  unfoldable pub tally :
      (PvcSummary F → Bool) → Dict (PvcRiskSignal F) → List (PvcSummary F) → ℤ × F → ℤ × F
  tally counts risks [] total = total
  tally counts risks (s ∷ ss) total =
      let growth = growth_of (lookup (key_of s.namespace s.name) risks) in
      let more = if counts s then (add64 total.0 s.used_bytes, add total.1 growth) else total in
      tally counts risks ss more

  -- The forecast for a budget, given the tally.
  unfoldable pub forecast : ℤ → Str → Str → Str → Str → ℤ → ℤ × F → StorageBudgetForecast F
  forecast now scope namespace kind name budget total =
      let projection = budget_breach_projection now total.0 budget total.1 in
      record {
        scope = scope;
        namespace = namespace;
        kind = kind;
        name = name;
        budget_bytes = budget;
        used_bytes = total.0;
        usage_ratio = if leb_ℤ budget (pos 0) then nought else div (of_int total.0) (of_int budget);
        growth_bytes_per_day = total.1;
        days_until_breach = projection.0;
        projected_breach_at = projection.1;
      }

  module _ (parse_quantity : Str → Option ℤ) (now : ℤ) (summaries : List (PvcSummary F))
      (risks : Dict (PvcRiskSignal F)) where
    -- The forecast, unless the budget does not parse or is not above zero.
    forecast_for :
        Option ℤ → Str → Str → Str → Str → (PvcSummary F → Bool) → Option (StorageBudgetForecast F)
    unfolding forecast
    forecast_for none scope namespace kind name counts = none
    forecast_for (some budget) scope namespace kind name counts =
        if leb_ℤ budget (pos 0)
        then none
        else some (
            forecast now scope namespace kind name budget
              (tally counts risks summaries (pos 0, nought)))

    namespace_forecast : NamespaceBudgetSpec → Option (StorageBudgetForecast F)
    unfolding forecast_for
    namespace_forecast b =
        let ns = trim_space b.namespace in
        if is_empty ns
        then none
        else forecast_for (parse_budget_bytes parse_quantity b.budget) (bytes "namespace") ns [] []
            (is_in ns)

    workload_forecast : Dict PvcWorkloadRef → WorkloadBudgetSpec → Option (StorageBudgetForecast F)
    unfolding forecast_for
    workload_forecast workloads b =
        let ns = trim_space b.namespace in
        let kind = trim_space b.kind in
        let name = trim_space b.name in
        if is_empty ns || is_empty kind || is_empty name
        then none
        else forecast_for (parse_budget_bytes parse_quantity b.budget) (bytes "workload") ns kind
            name (belongs_to workloads ns kind name)

    unfoldable pub namespace_forecasts : List NamespaceBudgetSpec → List (StorageBudgetForecast F)
    unfolding namespace_forecast
    namespace_forecasts [] = []
    namespace_forecasts (b ∷ bs) = keep (namespace_forecast b) (namespace_forecasts bs)

    unfoldable pub workload_forecasts :
        Dict PvcWorkloadRef → List WorkloadBudgetSpec → List (StorageBudgetForecast F)
    unfolding workload_forecast
    workload_forecasts workloads [] = []
    workload_forecasts workloads (b ∷ bs) =
        keep (workload_forecast workloads b) (workload_forecasts workloads bs)

    unfoldable pub build_budget_forecasts :
        BudgetSpec
        → Dict PvcWorkloadRef
        → List (StorageBudgetForecast F) × List (StorageBudgetForecast F)
    unfolding namespace_forecasts workload_forecasts
    build_budget_forecasts spec workloads = (
      sort_slice forecast_sort_less (namespace_forecasts spec.namespace_budgets),
      sort_slice forecast_sort_less (workload_forecasts workloads spec.workload_budgets),
    )
