-- ===== src/Llm/PlanPrompt.antt =====
-- internal/llm/plan_prompt.go: the prompts on what changed in a plan and on its budgets. As in
-- Llm/Prompt, the templates are the texts that they make, and the fallbacks are left out.
use capacity_planning_operat.Prelude.{Bool, List, [], ◌∷◌, ◌++◌, map}
use capacity_planning_operat.Prelude.Text.{Str, bytes, trim_space}
use capacity_planning_operat.Prelude.Print.{show_bool}
use capacity_planning_operat.Prelude.Float.{Float64}
use capacity_planning_operat.Llm.Prompt.{PromptParts, lines}

abbrev risk_change_prompt_template_version : Str
risk_change_prompt_template_version = bytes "risk-change-v1"

abbrev budget_recommendation_prompt_template_version : Str
budget_recommendation_prompt_template_version = bytes "budget-recommendation-v1"

pub record PlanRiskChange (F : Type 0) : Type 0 where
  pub change_type : Str
  pub namespace : Str
  pub name : Str
  pub previous_weekly_gib_per_day : F
  pub current_weekly_gib_per_day : F
  pub previous_projected_full_at : Str
  pub current_projected_full_at : Str
  pub message : Str

pub record PlanTopRisk (F : Type 0) : Type 0 where
  pub namespace : Str
  pub name : Str
  pub weekly_gib_per_day : F
  pub usage_ratio : F
  pub days_until_full : Str
  pub alert_firing : Bool

pub record PlanRiskChangeContext (F : Type 0) : Type 0 where
  pub plan_name : Str
  pub risk_change_summary : Str
  pub changes : List (PlanRiskChange F)
  pub top_risks : List (PlanTopRisk F)

pub record PlanBudgetForecast (F : Type 0) : Type 0 where
  pub namespace : Str
  pub kind : Str
  pub name : Str
  pub budget_mib : F
  pub used_mib : F
  pub usage_ratio : F
  pub growth_mib_per_min : F
  pub days_until_breach : Str

pub record PlanBudgetRecommendationsContext (F : Type 0) : Type 0 where
  pub plan_name : Str
  pub namespace_forecasts : List (PlanBudgetForecast F)
  pub workload_forecasts : List (PlanBudgetForecast F)
  pub top_risks : List (PlanTopRisk F)

pub record RiskChangePromptData (F : Type 0) : Type 0 where
  pub prompt_version : Str
  pub plan_name : Str
  pub risk_change_summary : Str
  pub changes : List (PlanRiskChange F)
  pub top_risks : List (PlanTopRisk F)

pub record BudgetRecommendationPromptData (F : Type 0) : Type 0 where
  pub prompt_version : Str
  pub plan_name : Str
  pub namespace_forecasts : List (PlanBudgetForecast F)
  pub workload_forecasts : List (PlanBudgetForecast F)
  pub top_risks : List (PlanTopRisk F)

-- A `range` over the items, with a line of its own for none.
abbrev or_none : List Str → List Str
or_none [] = bytes "- none" ∷ []
or_none (s ∷ ss) = s ∷ ss

abbrev volume : Str → Str → Str
volume namespace name = bytes " pvc=" ++ namespace ++ bytes "/" ++ name

module _ {F : Type 0} ⦃float : Float64 F⦄ where
  open float use {fixed}

  unfoldable pub build_risk_change_prompt_data : PlanRiskChangeContext F → RiskChangePromptData F
  build_risk_change_prompt_data ctx = record {
    prompt_version = risk_change_prompt_template_version;
    plan_name = trim_space ctx.plan_name;
    risk_change_summary = trim_space ctx.risk_change_summary;
    changes = ctx.changes;
    top_risks = ctx.top_risks;
  }

  unfoldable pub build_budget_recommendation_prompt_data :
      PlanBudgetRecommendationsContext F → BudgetRecommendationPromptData F
  build_budget_recommendation_prompt_data ctx = record {
    prompt_version = budget_recommendation_prompt_template_version;
    plan_name = trim_space ctx.plan_name;
    namespace_forecasts = ctx.namespace_forecasts;
    workload_forecasts = ctx.workload_forecasts;
    top_risks = ctx.top_risks;
  }

  -- The lines of the items, as the templates print them.
  abbrev change_line : PlanRiskChange F → Str
  change_line c =
      bytes "- type="
      ++ c.change_type
      ++ volume c.namespace c.name
      ++ bytes " prevWeeklyGiBPerDay="
      ++ fixed 2 c.previous_weekly_gib_per_day
      ++ bytes " currWeeklyGiBPerDay="
      ++ fixed 2 c.current_weekly_gib_per_day
      ++ bytes " prevProjectedFullAt="
      ++ c.previous_projected_full_at
      ++ bytes " currProjectedFullAt="
      ++ c.current_projected_full_at
      ++ bytes " message="
      ++ c.message

  abbrev volume_line : PlanTopRisk F → Str
  volume_line r =
      bytes "-"
      ++ volume r.namespace r.name
      ++ bytes " weeklyGiBPerDay="
      ++ fixed 2 r.weekly_gib_per_day
      ++ bytes " usageRatio="
      ++ fixed 3 r.usage_ratio
      ++ bytes " daysUntilFull="
      ++ r.days_until_full

  abbrev alerting_volume_line : PlanTopRisk F → Str
  alerting_volume_line r = volume_line r ++ bytes " alertFiring=" ++ show_bool r.alert_firing

  abbrev measures : PlanBudgetForecast F → Str
  measures f =
      bytes " budgetMiB="
      ++ fixed 2 f.budget_mib
      ++ bytes " usedMiB="
      ++ fixed 2 f.used_mib
      ++ bytes " usageRatio="
      ++ fixed 3 f.usage_ratio
      ++ bytes " growthMiBPerMin="
      ++ fixed 2 f.growth_mib_per_min
      ++ bytes " daysUntilBreach="
      ++ f.days_until_breach

  abbrev namespace_forecast_line : PlanBudgetForecast F → Str
  namespace_forecast_line f = bytes "- namespace=" ++ f.namespace ++ measures f

  abbrev workload_forecast_line : PlanBudgetForecast F → Str
  workload_forecast_line f =
      bytes "- workload=" ++ f.namespace ++ bytes "/" ++ f.kind ++ bytes "/" ++ f.name ++ measures f

  -- `riskChangeSystemPromptTemplate`.
  unfoldable pub risk_change_system_prompt : RiskChangePromptData F → Str
  risk_change_system_prompt d = lines (
      bytes "You are a Kubernetes storage risk analyst."
      ∷ (bytes "PromptVersion: " ++ d.prompt_version)
      ∷ []
      ∷ bytes "Goal:"
      ∷ bytes
          "Summarize what changed in storage risk between reconciles and what operators should verify next."
      ∷ []
      ∷ bytes "Output contract (strict):"
      ∷ bytes "- Plain text only (no markdown tables or JSON)."
      ∷ bytes "- 3-5 short sentences."
      ∷ bytes "- Include one sentence that starts with \"Most likely driver:\"."
      ∷ bytes "- Include one sentence that starts with \"Next check (24h):\"."
      ∷ [])

  -- `riskChangeUserPromptTemplate`.
  unfoldable pub risk_change_user_prompt : RiskChangePromptData F → Str
  risk_change_user_prompt d = lines (
      ((bytes "Plan=" ++ d.plan_name)
        ∷ (bytes "ChangeSummary=" ++ d.risk_change_summary)
        ∷ []
        ∷ bytes "RiskChanges:"
        ∷ or_none (map change_line d.changes))
      ++ ([] ∷ bytes "CurrentTopRisks:" ∷ or_none (map alerting_volume_line d.top_risks)))

  -- `budgetRecommendationSystemPromptTemplate`.
  unfoldable pub budget_recommendation_system_prompt : BudgetRecommendationPromptData F → Str
  budget_recommendation_system_prompt d = lines (
      bytes "You are a Kubernetes storage budget planner."
      ∷ (bytes "PromptVersion: " ++ d.prompt_version)
      ∷ []
      ∷ bytes "Goal:"
      ∷ bytes
          "Provide concrete budget/risk mitigation actions based on namespace and workload forecasts."
      ∷ []
      ∷ bytes "Output contract (strict):"
      ∷ bytes "- Plain text only."
      ∷ bytes "- Exactly 3 numbered lines: \"1) ...\", \"2) ...\", \"3) ...\"."
      ∷ bytes "- Each line must include a target (namespace or workload) and a timeframe."
      ∷ bytes "- Prefer actions that reduce forecasted budget breach risk first."
      ∷ [])

  -- `budgetRecommendationUserPromptTemplate`.
  unfoldable pub budget_recommendation_user_prompt : BudgetRecommendationPromptData F → Str
  budget_recommendation_user_prompt d = lines (
      ((bytes "Plan=" ++ d.plan_name)
        ∷ []
        ∷ bytes "NamespaceForecasts:"
        ∷ or_none (map namespace_forecast_line d.namespace_forecasts))
      ++ ([]
          ∷ bytes "WorkloadForecasts:"
          ∷ or_none (map workload_forecast_line d.workload_forecasts))
      ++ ([] ∷ bytes "TopRisks:" ∷ or_none (map volume_line d.top_risks)))

  unfoldable pub build_risk_change_prompt_parts : PlanRiskChangeContext F → PromptParts
  build_risk_change_prompt_parts ctx =
      let d = build_risk_change_prompt_data ctx in
      record {
        version = d.prompt_version;
        system = risk_change_system_prompt d;
        user = risk_change_user_prompt d;
      }

  unfoldable pub build_budget_recommendation_prompt_parts :
      PlanBudgetRecommendationsContext F → PromptParts
  build_budget_recommendation_prompt_parts ctx =
      let d = build_budget_recommendation_prompt_data ctx in
      record {
        version = d.prompt_version;
        system = budget_recommendation_system_prompt d;
        user = budget_recommendation_user_prompt d;
      }
