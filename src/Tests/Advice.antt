-- ===== src/Tests/Advice.antt =====
-- The text on the budgets at a concrete forecast.
use capacity_planning_operat.Prelude.{◌≡◌, refl, false, true, [], ◌∷◌, none}
use capacity_planning_operat.Prelude.Int.{pos}
use capacity_planning_operat.Prelude.Text.{bytes, is_empty}
use capacity_planning_operat.Prelude.Float.{Milli, milli_float}
use capacity_planning_operat.Api.{StorageBudgetForecast}
use capacity_planning_operat.Plan.Insight.{error}
use capacity_planning_operat.Plan.Insight.Budget.{
  refresh_plan_budget_recommendations, refresh_plan_budget_recommendations_nonempty,
}
use capacity_planning_operat.Tests.{shop, milli}
use capacity_planning_operat.Tests.Insights.{client_state}

abbrev pub forecast_of_shop : StorageBudgetForecast Milli
forecast_of_shop = record {
  scope = bytes "namespace";
  namespace = shop;
  kind = [];
  name = [];
  budget_bytes = pos 1000;
  used_bytes = pos 10;
  usage_ratio = milli 10;
  growth_bytes_per_day = milli 0;
  days_until_breach = none;
  projected_breach_at = none;
}

refresh_plan_budget_recommendations_nonempty_example :
    (is_empty
        (refresh_plan_budget_recommendations client_state (forecast_of_shop ∷ []) [] (error true)).0
      ≡ false)
    × (is_empty
          (refresh_plan_budget_recommendations client_state []
            (forecast_of_shop ∷ [])
            (error true)).0
        ≡ false)
refresh_plan_budget_recommendations_nonempty_example =
    refresh_plan_budget_recommendations_nonempty client_state forecast_of_shop [] [] (error true)
      refl refl
