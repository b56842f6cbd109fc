-- ===== src/Plan/Reconcile.antt =====
-- Reconcile, prometheusReadyStatus and backfillReadyStatus of
-- internal/controller/capacityplan_controller.go: how the parts of the planner make one request. What
-- the API server, the clock and a language model answer is a parameter; the child resources
-- (PrometheusRule, dashboard), whose errors are only logged, and the counters of the requests that
-- send a prompt are left out.
pub mod Loop
pub mod Consistent
use capacity_planning_operat.Prelude.{
  ℕ, ◌*◌, Bool, true, false, List, [], ◌∷◌, ◌++◌, Option, none, some, ◌⊎◌, inl, inr, if◌then◌else◌,
}
use capacity_planning_operat.Prelude.Int.{ℤ, pos, leb_ℤ}
use capacity_planning_operat.Prelude.Text.{Str, bytes, is_empty, trim_space, itoa}
use capacity_planning_operat.Prelude.Print.{show_int}
use capacity_planning_operat.Prelude.Dict.{Dict, insert, lookup}
use capacity_planning_operat.Prelude.Fallible.{Fallible, ok, err}
use capacity_planning_operat.Prelude.Float.{Float64, nought}
use capacity_planning_operat.Analysis.RingBuffer.{Sample}
use capacity_planning_operat.Operator.{Series}
use capacity_planning_operat.Metrics.{PvcMetricsClient, key_of}
use capacity_planning_operat.Api.{
  CapacityPlan, CapacityPlanSpec, CapacityPlanStatus, Condition, PvcSummary,
}
use capacity_planning_operat.Watcher.{Watcher, Pvc, get_snapshot, get_latest_capacity}
use capacity_planning_operat.Watcher.Reconcile.{
  Got, not_found, failed, found, Reply, done, requeue_after, error,
}
use capacity_planning_operat.Llm.Clients.{Generator, UrlLibrary}
use capacity_planning_operat.Plan.Signals.{hour}
use capacity_planning_operat.Plan.Active.{
  is_active_plan, mark_plan_inactive, set_condition, default_reconcile_interval,
}
use capacity_planning_operat.Plan.Setup.{configure_watcher_for_plan, list_scoped_pvcs}
use capacity_planning_operat.Plan.Insight.{PvcContext, Answer, Model, build_summary}
use capacity_planning_operat.Plan.Client.{Secrets}
use capacity_planning_operat.Plan.Client.Cache.{Resolved, resolve_plan_llm_client}
use capacity_planning_operat.Plan.Workload.{Pod, Owned}

-- A client as the planner uses it: what it answers on a volume, whether it takes prompts, and what it
-- would answer to the two prompts of a plan.
pub record ActiveClient (F : Type 0) : Type 0 where
  pub insight : PvcContext F → Answer
  pub takes_prompts : Bool
  pub risk_answer : Answer
  pub budget_answer : Answer

-- The fields of the reconciler that do not change, and the answers of other code.
pub record Environment (F : Type 0) : Type 1 where
  pub injected : Option (ActiveClient F)
  pub default_client : Option PvcMetricsClient
  -- The default client is a `*metrics.PrometheusClient`.
  pub default_is_prometheus : Bool
  pub default_retention : ℤ
  pub backfill_configured : Bool
  pub backfill_successful : ℤ
  pub backfill_error : Str
  pub secrets : Secrets
  pub urls : UrlLibrary
  pub client_of : Generator F → ActiveClient F
  pub new_prometheus_client : Str → PvcMetricsClient
  pub list_plans : Str ⊎ List (CapacityPlan F)
  pub list_pvcs : Option Str → Option (List Pvc)
  pub list_pods : Str → Option (List Pod)
  pub get_replica_set : Str → Str → Got Owned
  pub get_job : Str → Str → Got Owned
  pub update : CapacityPlan F → Option Str
  pub set_status_condition : List Condition → Condition → List Condition
  pub parse_quantity : Str → Option ℤ
  pub sha256_hex : Str → Str
  pub quote : Str → Str
  -- `nowTime`, the time of the status, and the times before and behind the request on a volume.
  pub now : ℤ
  pub finished : ℤ
  pub around : Str → ℤ × ℤ

-- What changes from request to request besides the plans.
pub record Operator (F : Type 0) : Type 0 where
  pub watcher : Watcher
  pub clients : Dict (Generator F)
  pub series : Series F

-- The client of a request, its labels, and the condition that tells of it.
pub record ActiveLlm (F : Type 0) : Type 0 where
  pub client : Option (ActiveClient F)
  pub provider : Str
  pub model : Str
  pub condition : Str × Str × Str

abbrev or_text : Str → Str → Str
or_text s d = if is_empty s then d else s

module _ {F : Type 0} where
  abbrev disabled_llm : Str → Str → ActiveLlm F
  disabled_llm reason message = record {
    client = none;
    provider = bytes "disabled";
    model = bytes "n/a";
    condition = (bytes "False", reason, message);
  }

  module _ (env : Environment F) where
    -- What the answer of `resolvePlanLLMClient` means.
    unfoldable pub active_of : Fallible (Option (Generator F) × Str × Str) → ActiveLlm F
    active_of (err e) = disabled_llm (bytes "ProviderError") e
    active_of (ok (none, provider, model)) =
        record (disabled_llm (bytes "Disabled") (bytes "LLM provider is disabled")) {
          provider = or_text provider (bytes "disabled");
          model = or_text model (bytes "n/a");
        }
    active_of (ok (some gen, provider, model)) = record {
      client = some (env.client_of gen);
      provider = or_text provider (bytes "disabled");
      model = or_text model (bytes "n/a");
      condition = (
        bytes "True",
        bytes "Configured",
        bytes "LLM provider " ++ env.quote provider ++ bytes " is configured",
      );
    }

    abbrev injected_llm : ActiveClient F → ActiveLlm F
    injected_llm c = record {
      client = some c;
      provider = bytes "custom";
      model = bytes "custom";
      condition = (bytes "True", bytes "Injected", bytes "LLM client injected into reconciler");
    }

    unfoldable pub prometheus_ready_status : CapacityPlanSpec F → Str × Str × Str
    prometheus_ready_status spec =
        if is_empty (trim_space spec.prometheus_url)
        then (if env.default_is_prometheus
            then (
              bytes "True",
              bytes "Configured",
              bytes "Prometheus metrics client configured from operator startup settings",
            )
            else (
              bytes "False",
              bytes "Disabled",
              bytes "Prometheus metrics client is disabled for this plan",
            ))
        else (
          bytes "True",
          bytes "Configured",
          bytes "Prometheus metrics client configured from CapacityPlan spec",
        )

    unfoldable pub backfill_ready_status : Str × Str × Str
    backfill_ready_status =
        if env.backfill_configured
        then (if is_empty (trim_space env.backfill_error)
            then (
              bytes "True",
              bytes "Succeeded",
              bytes "Startup backfill completed successfully for "
                  ++ show_int env.backfill_successful
                  ++ bytes " PVCs",
            )
            else (
              bytes "False",
              bytes "PartialFailure",
              bytes "Startup backfill completed with errors after "
                  ++ show_int env.backfill_successful
                  ++ bytes " successful PVCs: "
                  ++ env.backfill_error,
            ))
        else (
          bytes "False",
          bytes "NotConfigured",
          bytes "Startup backfill is disabled because --prometheus-url is not set",
        )

module _ {F : Type 0} ⦃float : Float64 F⦄ (env : Environment F) where
  open float use {of_int, lit, eq}

  abbrev parsed_threshold : Option F → F
  parsed_threshold none = lit 85 100
  parsed_threshold (some v) = v

  unfoldable pub usage_threshold : CapacityPlanSpec F → F
  usage_threshold spec =
      if is_empty spec.thresholds.usage_ratio
      then lit 85 100
      else parsed_threshold (float.parse spec.thresholds.usage_ratio)

  unfoldable pub days_threshold : CapacityPlanSpec F → F
  days_threshold spec =
      let d = of_int spec.thresholds.days_until_full in if eq d nought then lit 7 1 else d

  abbrev pub llm_interval : CapacityPlanSpec F → ℤ
  llm_interval spec =
      if leb_ℤ spec.llm_insights_interval (pos 0)
      then pos (6 * hour)
      else spec.llm_insights_interval

  -- The injected client, or the one of the plan; with it the cache.
  unfoldable pub choose_llm :
      Option (ActiveClient F)
      → Dict (Generator F)
      → CapacityPlanSpec F
      → ActiveLlm F × Dict (Generator F)
  choose_llm (some c) clients spec = (injected_llm env c, clients)
  choose_llm none clients spec =
      let r = resolve_plan_llm_client env.urls env.secrets clients spec.llm in
      (active_of env r.result, r.cache)

  -- `prevByKey`.
  unfoldable pub index_previous : List (PvcSummary F) → Dict (PvcSummary F) → Dict (PvcSummary F)
  index_previous [] out = out
  index_previous (s ∷ ss) out = index_previous ss (insert (key_of s.namespace s.name) s out)

  -- A volume without a previous summary has the zero value of one.
  abbrev previous_of : Option (PvcSummary F) → PvcSummary F
  previous_of (some s) = s
  previous_of none = record {
    namespace = [];
    name = [];
    capacity_bytes = pos 0;
    used_bytes = pos 0;
    usage_ratio = nought;
    growth_bytes_per_day = nought;
    days_until_full = none;
    confidence_r2 = nought;
    samples_count = 0;
    last_sample_time = none;
    llm_insight = [];
    last_llm_time = none;
    alert_firing = false;
  }
