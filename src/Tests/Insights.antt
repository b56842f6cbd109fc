-- ===== src/Tests/Insights.antt =====
-- The summaries, the texts and the choice of the plan at concrete volumes.
use capacity_planning_operat.Prelude.{
  ℕ, inl, inr, ◌≡◌, refl, true, false, List, [], ◌∷◌, some, none,
}
use capacity_planning_operat.Prelude.Int.{pos}
use capacity_planning_operat.Prelude.Text.{Str, bytes, str_eq, trim_space, is_empty}
use capacity_planning_operat.Prelude.Sort.{IsTop}
use capacity_planning_operat.Prelude.Float.{Milli, milli_float}
use capacity_planning_operat.Api.{CapacityPlan}
use capacity_planning_operat.Plan.Summary.{build_status_summary}
use capacity_planning_operat.Plan.Active.{is_older, is_active_plan, is_active_plan_oldest}
use capacity_planning_operat.Plan.Insight.{
  text, error, Model, LlmClientState, refresh_plan_risk_change_insight,
}
use capacity_planning_operat.Plan.Insight.Refresh.{refresh_plan_risk_change_insight_nonempty}
use capacity_planning_operat.Tests.{disk, summary}

-- A model that always says the same.
abbrev talker : Model Milli
talker = record {
  client = some (λ context. text (bytes "grows"));
  provider = bytes "ollama";
  label = bytes "default";
  interval = pos 100;
  only_alerting = false;
}

abbrev pub client_state : LlmClientState
client_state = record {
  has_client = true;
  takes_prompts = true;
  provider = bytes "ollama";
  model = bytes "default";
  interval = pos 100;
  now = pos 50;
  prev_hash = bytes "a";
  curr_hash = bytes "a";
  prev_text = bytes "grows";
  prev_time = some (pos 1);
  is_enabled = true;
}

refresh_plan_risk_change_insight_nonempty_example :
    is_empty (refresh_plan_risk_change_insight client_state [] (error true)).0 ≡ false
unfolding trim_space
refresh_plan_risk_change_insight_nonempty_example =
    refresh_plan_risk_change_insight_nonempty client_state [] (error true) refl refl (inl refl)

abbrev pub plan : Str → ℕ → CapacityPlan Milli
plan name created = record {
  name = name;
  creation_timestamp = pos created;
  generation = pos 1;
  spec = record {
    namespaces = [];
    sample_retention = pos 720;
    reconcile_interval = pos 0;
    sample_interval = pos 0;
    prometheus_url = [];
    thresholds = record { usage_ratio = bytes "0.85"; days_until_full = pos 7 };
    budgets = record { namespace_budgets = []; workload_budgets = [] };
    llm_insights_interval = pos 0;
    llm = record {
      provider = bytes "disabled";
      model = [];
      timeout = pos 0;
      max_tokens = pos 0;
      temperature = none;
      only_alerting_pvcs = false;
      open_ai = record { secret_ref_name = []; secret_key = []; base_url = [] };
      anthropic = record { secret_ref_name = []; secret_key = []; base_url = [] };
      fast_api = record {
        url = [];
        auth_secret_ref_name = [];
        auth_secret_key = [];
        tls_skip_verify = false;
        health_url = [];
        failure_threshold = pos 0;
        cooldown = pos 0;
      };
      ollama = record { url = [] };
    };
    grafana_dashboard_namespace = [];
  };
  status = record {
    conditions = [];
    pvcs = [];
    summary = build_status_summary [] (pos 3);
    top_risks = [];
    risk_digest = [];
    risk_changes = [];
    risk_change_summary = [];
    llm_risk_change_summary = [];
    last_llm_risk_change_time = none;
    risk_snapshot_hash = [];
    namespace_forecasts = [];
    workload_forecasts = [];
    llm_budget_recommendations = [];
    last_llm_budget_recommendations_time = none;
    anomalies = [];
    anomaly_summary = [];
    last_reconcile_time = none;
    observed_generation = pos 0;
  };
}

is_active_plan_oldest_example :
    (oldest : CapacityPlan Milli) × (others : List (CapacityPlan Milli)) × IsTop is_older 1
      (plan disk 5 ∷ plan (bytes "logs") 3 ∷ [])
      (oldest ∷ [])
      others
    × ((p : CapacityPlan Milli)
        → is_active_plan (inr (plan disk 5 ∷ plan (bytes "logs") 3 ∷ [])) p
          ≡ inr (str_eq p.name oldest.name, oldest.name))
is_active_plan_oldest_example = is_active_plan_oldest (plan disk 5) (plan (bytes "logs") 3 ∷ [])
