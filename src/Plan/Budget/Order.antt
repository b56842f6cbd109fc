-- ===== src/Plan/Budget/Order.antt =====
-- The order of the budget forecasts.
use capacity_planning_operat.Prelude.{◌≡◌, refl, Bool, List, [], ◌∷◌, Option, All}
use mathlib.Core.List.{Perm}
use capacity_planning_operat.Prelude.Int.{ℤ}
use capacity_planning_operat.Prelude.Text.{Str, str_eq, str_lt}
use capacity_planning_operat.Prelude.Sort.{
  IsOrder, IsSorted, IsSorted-same, sort_slice, sort_slice-perm, sort_slice-IsSorted,
}
use capacity_planning_operat.Prelude.Lex.{
  by_first_difference, lex-IsOrder, float-IsWeakOrder, str-IsWeakOrder, by_key-IsOrder, Anything,
}
use capacity_planning_operat.Prelude.Dict.{Dict}
use capacity_planning_operat.Prelude.Float.{Float64, IsNumber, IsOrdered}
use capacity_planning_operat.Api.{PvcSummary, StorageBudgetForecast, BudgetSpec}
use capacity_planning_operat.Plan.Signals.{PvcRiskSignal}
use capacity_planning_operat.Plan.TopRisks.Ranking.{days_left, days_or_max-days_left}
use capacity_planning_operat.Plan.TopRisks.{PvcWorkloadRef, days_or_max}
use capacity_planning_operat.Plan.Budget.{
  forecast_sort_less, namespace_forecasts, workload_forecasts, build_budget_forecasts,
}

module _ {F : Type 0} ⦃float : Float64 F⦄ where
  abbrev pub IsComparable : StorageBudgetForecast F → Type 0
  IsComparable f = IsNumber (days_or_max f.days_until_breach)

  forecast_sort_less-IsOrder : IsOrdered F → IsOrder (forecast_sort_less {F = F}) IsComparable
  unfolding forecast_sort_less
  forecast_sort_less-IsOrder laws =
      lex-IsOrder IsComparable (λ f. days_or_max f.days_until_breach) (λ f p. p)
        (float-IsWeakOrder laws)
        (lex-IsOrder IsComparable {Q = Anything} (λ f. f.namespace) (λ f p. tt) str-IsWeakOrder
          (by_key-IsOrder IsComparable (λ f. f.kind) (λ f. f.name)))

  -- The order: rising days until the breach, then the namespace, the kind and the name.
  abbrev pub breaches_before : StorageBudgetForecast F → StorageBudgetForecast F → Bool
  breaches_before a b =
      by_first_difference
        ((
          float.eq (days_left a.days_until_breach) (days_left b.days_until_breach),
          float.lt (days_left a.days_until_breach) (days_left b.days_until_breach),
        )
          ∷ (str_eq a.namespace b.namespace, str_lt a.namespace b.namespace)
          ∷ (str_eq a.kind b.kind, str_lt a.kind b.kind)
          ∷ [])
        (str_lt a.name b.name)

  forecast_sort_less-breaches_before :
      (a b : StorageBudgetForecast F) → forecast_sort_less a b ≡ breaches_before a b
  unfolding forecast_sort_less
  forecast_sort_less-breaches_before a b =
      rw (days_or_max-days_left a.days_until_breach, days_or_max-days_left b.days_until_breach) refl

  -- The list has the forecasts, each as often, in the order of their breach.
  abbrev pub IsInOrder : List (StorageBudgetForecast F) → List (StorageBudgetForecast F) → Type 0
  IsInOrder forecasts out = Perm out forecasts × IsSorted breaches_before out

  sorted-IsInOrder :
      IsOrdered F
      → (forecasts : List (StorageBudgetForecast F)) → All IsComparable forecasts
      → IsInOrder forecasts (sort_slice forecast_sort_less forecasts)
  sorted-IsInOrder laws forecasts h = (
    sort_slice-perm forecast_sort_less forecasts,
    IsSorted-same forecast_sort_less breaches_before forecast_sort_less-breaches_before
        (sort_slice forecast_sort_less forecasts)
        (sort_slice-IsSorted forecast_sort_less IsComparable (forecast_sort_less-IsOrder laws)
          forecasts h),
  )

  -- Where `<` orders the numbers and the days of the forecasts are numbers, both lists are the forecasts
  -- of their scope, none lost and none doubled, in the order of rising days until the breach, a budget
  -- that is never breached counting as the greatest float64, and then of namespace, kind and name.
  pub build_budget_forecasts-IsSorted :
      IsOrdered F
      → (parse_quantity : Str → Option ℤ) (now : ℤ) (summaries : List (PvcSummary F))
        (risks : Dict (PvcRiskSignal F)) (spec : BudgetSpec) (workloads : Dict PvcWorkloadRef)
      → let by_namespace =
          namespace_forecasts parse_quantity now summaries risks spec.namespace_budgets in
        let by_workload =
          workload_forecasts parse_quantity now summaries risks workloads spec.workload_budgets in
        All IsComparable by_namespace
        → All IsComparable by_workload
        → let out = build_budget_forecasts parse_quantity now summaries risks spec workloads in
          IsInOrder by_namespace out.0 × IsInOrder by_workload out.1
  unfolding build_budget_forecasts
  build_budget_forecasts-IsSorted laws parse_quantity now summaries risks spec workloads h k = (
    sorted-IsInOrder laws
        (namespace_forecasts parse_quantity now summaries risks spec.namespace_budgets) h,
    sorted-IsInOrder laws
        (workload_forecasts parse_quantity now summaries risks workloads spec.workload_budgets) k,
  )
