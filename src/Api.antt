-- ===== src/Api.antt =====
-- api/v1/capacityplan_types.go: the objects that the planner reads and writes. A timestamp is a number
-- of nanoseconds and an optional one, like an optional number, an `Option`; float64 is a parameter.
use capacity_planning_operat.Prelude.{ℕ, Bool, List, Option}
use capacity_planning_operat.Prelude.Int.{ℤ}
use capacity_planning_operat.Prelude.Text.{Str}

pub record OpenAiProviderSpec : Type 0 where
  pub secret_ref_name : Str
  pub secret_key : Str
  pub base_url : Str

pub record AnthropicProviderSpec : Type 0 where
  pub secret_ref_name : Str
  pub secret_key : Str
  pub base_url : Str

pub record FastApiProviderSpec : Type 0 where
  pub url : Str
  pub auth_secret_ref_name : Str
  pub auth_secret_key : Str
  pub tls_skip_verify : Bool
  pub health_url : Str
  pub failure_threshold : ℤ
  pub cooldown : ℤ

pub record OllamaProviderSpec : Type 0 where
  pub url : Str

pub record LlmProviderSpec (F : Type 0) : Type 0 where
  pub provider : Str
  pub model : Str
  pub timeout : ℤ
  pub max_tokens : ℤ
  pub temperature : Option F
  pub only_alerting_pvcs : Bool
  pub open_ai : OpenAiProviderSpec
  pub anthropic : AnthropicProviderSpec
  pub fast_api : FastApiProviderSpec
  pub ollama : OllamaProviderSpec

pub record ThresholdSpec : Type 0 where
  pub usage_ratio : Str
  pub days_until_full : ℤ

pub record NamespaceBudgetSpec : Type 0 where
  pub namespace : Str
  pub budget : Str

pub record WorkloadBudgetSpec : Type 0 where
  pub namespace : Str
  pub kind : Str
  pub name : Str
  pub budget : Str

pub record BudgetSpec : Type 0 where
  pub namespace_budgets : List NamespaceBudgetSpec
  pub workload_budgets : List WorkloadBudgetSpec

pub record CapacityPlanSpec (F : Type 0) : Type 0 where
  pub namespaces : List Str
  pub sample_retention : ℤ
  pub reconcile_interval : ℤ
  pub sample_interval : ℤ
  pub prometheus_url : Str
  pub thresholds : ThresholdSpec
  pub budgets : BudgetSpec
  pub llm_insights_interval : ℤ
  pub llm : LlmProviderSpec F
  pub grafana_dashboard_namespace : Str

pub record PvcSummary (F : Type 0) : Type 0 where
  pub namespace : Str
  pub name : Str
  pub capacity_bytes : ℤ
  pub used_bytes : ℤ
  pub usage_ratio : F
  pub growth_bytes_per_day : F
  pub days_until_full : Option F
  pub confidence_r2 : F
  pub samples_count : ℕ
  pub last_sample_time : Option ℤ
  pub llm_insight : Str
  pub last_llm_time : Option ℤ
  pub alert_firing : Bool

pub record PvcSummaryBrief (F : Type 0) : Type 0 where
  pub namespace : Str
  pub name : Str
  pub usage_ratio : F
  pub growth_bytes_per_day : F
  pub days_until_full : Option F
  pub alert_firing : Bool

pub record CapacityPlanSummary (F : Type 0) : Type 0 where
  pub total_pvcs : ℕ
  pub alerting_pvcs : ℕ
  pub top_by_usage : List (PvcSummaryBrief F)
  pub top_by_soonest_to_full : List (PvcSummaryBrief F)
  pub top_by_growth : List (PvcSummaryBrief F)

pub record PvcRiskSummary (F : Type 0) : Type 0 where
  pub namespace : Str
  pub name : Str
  pub workload_kind : Str
  pub workload_name : Str
  pub workload_namespace : Str
  pub used_bytes : ℤ
  pub capacity_bytes : ℤ
  pub usage_ratio : F
  pub weekly_growth_bytes_per_day : F
  pub daily_growth_bytes_per_day : F
  pub growth_acceleration : F
  pub confidence_r2 : F
  pub days_until_full : Option F
  pub projected_full_at : Option ℤ
  pub llm_insight : Str
  pub alert_firing : Bool

pub record PvcRiskChange (F : Type 0) : Type 0 where
  pub change_type : Str
  pub namespace : Str
  pub name : Str
  pub previous_weekly_growth_bytes_per_day : F
  pub current_weekly_growth_bytes_per_day : F
  pub previous_projected_full_at : Option ℤ
  pub current_projected_full_at : Option ℤ
  pub message : Str
  pub time : ℤ

pub record StorageBudgetForecast (F : Type 0) : Type 0 where
  pub scope : Str
  pub namespace : Str
  pub kind : Str
  pub name : Str
  pub budget_bytes : ℤ
  pub used_bytes : ℤ
  pub usage_ratio : F
  pub growth_bytes_per_day : F
  pub days_until_breach : Option F
  pub projected_breach_at : Option ℤ

pub record PvcAnomaly (F : Type 0) : Type 0 where
  pub namespace : Str
  pub name : Str
  pub anomaly_type : Str
  pub severity : Str
  pub message : Str
  pub time : ℤ
  pub workload_kind : Str
  pub workload_name : Str
  pub weekly_growth_bytes_per_day : F
  pub daily_growth_bytes_per_day : F
  pub growth_acceleration : F
  pub confidence_r2 : F

-- A `metav1.Condition` as the planner sets it; the time of the last transition is the library's.
pub record Condition : Type 0 where
  pub condition_type : Str
  pub status : Str
  pub observed_generation : ℤ
  pub reason : Str
  pub message : Str

pub record CapacityPlanStatus (F : Type 0) : Type 0 where
  pub conditions : List Condition
  pub pvcs : List (PvcSummary F)
  pub summary : CapacityPlanSummary F
  pub top_risks : List (PvcRiskSummary F)
  pub risk_digest : Str
  pub risk_changes : List (PvcRiskChange F)
  pub risk_change_summary : Str
  pub llm_risk_change_summary : Str
  pub last_llm_risk_change_time : Option ℤ
  pub risk_snapshot_hash : Str
  pub namespace_forecasts : List (StorageBudgetForecast F)
  pub workload_forecasts : List (StorageBudgetForecast F)
  pub llm_budget_recommendations : Str
  pub last_llm_budget_recommendations_time : Option ℤ
  pub anomalies : List (PvcAnomaly F)
  pub anomaly_summary : Str
  pub last_reconcile_time : Option ℤ
  pub observed_generation : ℤ

-- Of the object's metadata, what the code reads.
pub record CapacityPlan (F : Type 0) : Type 0 where
  pub name : Str
  pub creation_timestamp : ℤ
  pub generation : ℤ
  pub spec : CapacityPlanSpec F
  pub status : CapacityPlanStatus F
