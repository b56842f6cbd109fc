-- ===== src/Plan/Insight/Context.antt =====
-- toPlanTopRisks, toPlanRiskChanges and toPlanBudgetForecasts of
-- internal/controller/capacityplan_controller.go, and the prompts on a plan that they go into.
use capacity_planning_operat.Prelude.{ℕ, zero, suc, ◌*◌, List, Option, none, some, map, take}
use capacity_planning_operat.Prelude.Int.{ℤ, pos}
use capacity_planning_operat.Prelude.Text.{Str, bytes, trim_space}
use capacity_planning_operat.Prelude.Time.{format_rfc3339}
use capacity_planning_operat.Prelude.Float.{Float64}
use capacity_planning_operat.Api.{PvcRiskSummary, PvcRiskChange, StorageBudgetForecast}
use capacity_planning_operat.Llm.Prompt.{PromptParts}
use capacity_planning_operat.Llm.PlanPrompt.{
  PlanTopRisk, PlanRiskChange, PlanBudgetForecast, build_risk_change_prompt_parts,
  build_budget_recommendation_prompt_parts,
}

abbrev plan_time_string : Option ℤ → Str
plan_time_string none = bytes "n/a"
plan_time_string (some t) = format_rfc3339 t

-- A limit of 0 is none.
abbrev limited {ℓ} : {A : Type ℓ} → List A → ℕ → List A
limited xs zero = xs
limited xs (suc n) = take (suc n) xs

module _ {F : Type 0} ⦃float : Float64 F⦄ where
  open float use {of_int, lit, div, fixed}

  abbrev plan_duration_string : Option F → Str
  plan_duration_string none = bytes "n/a"
  plan_duration_string (some d) = fixed 2 d

  abbrev gib_of : F → F
  gib_of bytes_per_day = div bytes_per_day (of_int (pos (1024 * 1024 * 1024)))

  abbrev mib_of : F → F
  mib_of x = div x (of_int (pos (1024 * 1024)))

  abbrev to_plan_top_risk : PvcRiskSummary F → PlanTopRisk F
  to_plan_top_risk risk = record {
    namespace = risk.namespace;
    name = risk.name;
    weekly_gib_per_day = gib_of risk.weekly_growth_bytes_per_day;
    usage_ratio = risk.usage_ratio;
    days_until_full = plan_duration_string risk.days_until_full;
    alert_firing = risk.alert_firing;
  }

  abbrev to_plan_risk_change : PvcRiskChange F → PlanRiskChange F
  to_plan_risk_change change = record {
    change_type = change.change_type;
    namespace = change.namespace;
    name = change.name;
    previous_weekly_gib_per_day = gib_of change.previous_weekly_growth_bytes_per_day;
    current_weekly_gib_per_day = gib_of change.current_weekly_growth_bytes_per_day;
    previous_projected_full_at = plan_time_string change.previous_projected_full_at;
    current_projected_full_at = plan_time_string change.current_projected_full_at;
    message = trim_space change.message;
  }

  abbrev to_plan_budget_forecast : StorageBudgetForecast F → PlanBudgetForecast F
  to_plan_budget_forecast forecast = record {
    namespace = forecast.namespace;
    kind = forecast.kind;
    name = forecast.name;
    budget_mib = mib_of (of_int forecast.budget_bytes);
    used_mib = mib_of (of_int forecast.used_bytes);
    usage_ratio = forecast.usage_ratio;
    growth_mib_per_min = mib_of (div forecast.growth_bytes_per_day (lit 1440 1));
    days_until_breach = plan_duration_string forecast.days_until_breach;
  }

  unfoldable pub to_plan_top_risks : List (PvcRiskSummary F) → ℕ → List (PlanTopRisk F)
  to_plan_top_risks risks limit = map to_plan_top_risk (limited risks limit)

  unfoldable pub to_plan_risk_changes : List (PvcRiskChange F) → ℕ → List (PlanRiskChange F)
  to_plan_risk_changes changes limit = map to_plan_risk_change (limited changes limit)

  unfoldable pub to_plan_budget_forecasts :
      List (StorageBudgetForecast F) → ℕ → List (PlanBudgetForecast F)
  to_plan_budget_forecasts forecasts limit = map to_plan_budget_forecast (limited forecasts limit)

  -- The prompts of the two refreshes.
  unfoldable pub risk_change_prompt :
      Str → Str → List (PvcRiskChange F) → List (PvcRiskSummary F) → PromptParts
  risk_change_prompt plan_name summary changes risks = build_risk_change_prompt_parts (record {
    plan_name = plan_name;
    risk_change_summary = trim_space summary;
    changes = to_plan_risk_changes changes 8;
    top_risks = to_plan_top_risks risks 5;
  })

  unfoldable pub budget_recommendation_prompt :
      Str
      → List (StorageBudgetForecast F)
      → List (StorageBudgetForecast F)
      → List (PvcRiskSummary F)
      → PromptParts
  budget_recommendation_prompt plan_name namespaces workloads risks =
      build_budget_recommendation_prompt_parts (record {
        plan_name = plan_name;
        namespace_forecasts = to_plan_budget_forecasts namespaces 5;
        workload_forecasts = to_plan_budget_forecasts workloads 8;
        top_risks = to_plan_top_risks risks 5;
      })
