-- ===== src/Plan/Reconcile/Loop.antt =====
-- Reconcile from the summaries on: the analysis, the new status and the whole request.
use capacity_planning_operat.Prelude.{
  Bool, true, false, List, [], ◌∷◌, Option, none, some, ◌⊎◌, inl, inr, if◌then◌else◌, is_some,
}
use capacity_planning_operat.Prelude.Int.{ℤ, pos, leb_ℤ}
use capacity_planning_operat.Prelude.Text.{Str, bytes}
use capacity_planning_operat.Prelude.Dict.{Dict, insert, lookup}
use capacity_planning_operat.Prelude.Float.{Float64}
use capacity_planning_operat.Analysis.RingBuffer.{Sample}
use capacity_planning_operat.Operator.{Series}
use capacity_planning_operat.Metrics.{key_of}
use capacity_planning_operat.Api.{
  CapacityPlan, CapacityPlanStatus, PvcSummary, PvcRiskSummary, PvcRiskChange, PvcAnomaly,
  StorageBudgetForecast,
}
use capacity_planning_operat.Watcher.{Watcher, Pvc, get_snapshot, get_latest_capacity}
use capacity_planning_operat.Watcher.Reconcile.{
  Got, not_found, failed, found, Reply, done, requeue_after, error,
}
use capacity_planning_operat.Plan.Active.{
  is_active_plan, mark_plan_inactive, set_condition, default_reconcile_interval,
}
use capacity_planning_operat.Plan.Setup.{configure_watcher_for_plan, list_scoped_pvcs}
use capacity_planning_operat.Plan.Signals.{PvcRiskSignal, build_pvc_risk_signals}
use capacity_planning_operat.Plan.TopRisks.{
  status_summary_top_n, build_top_risks, enrich_top_risks_with_workloads,
}
use capacity_planning_operat.Plan.Summary.{build_status_summary}
use capacity_planning_operat.Plan.Changes.{detect_risk_changes, summarize_risk_changes}
use capacity_planning_operat.Plan.Anomalies.{detect_pvc_anomalies, summarize_pvc_anomalies}
use capacity_planning_operat.Plan.Budget.{build_budget_forecasts}
use capacity_planning_operat.Plan.Workload.{build_pvc_workload_index}
use capacity_planning_operat.Plan.Digest.{build_risk_digest}
use capacity_planning_operat.Plan.Hash.{compute_risk_snapshot_hash, compute_budget_forecast_hash}
use capacity_planning_operat.Plan.Insight.{
  PvcContext, Model, LlmClientState, Answer, build_summary, refresh_plan_risk_change_insight,
}
use capacity_planning_operat.Plan.Insight.Budget.{refresh_plan_budget_recommendations}
use capacity_planning_operat.Plan.Export.{index_signals, export_plan}
use capacity_planning_operat.Plan.Reconcile.{
  Environment, Operator, ActiveClient, ActiveLlm, usage_threshold, days_threshold, llm_interval,
  choose_llm, index_previous, previous_of, prometheus_ready_status, backfill_ready_status,
}

-- What a request finds out.
pub record Analysis (F : Type 0) : Type 0 where
  pub summaries : List (PvcSummary F)
  pub signals : List (PvcRiskSignal F)
  pub top_risks : List (PvcRiskSummary F)
  pub namespace_forecasts : List (StorageBudgetForecast F)
  pub workload_forecasts : List (StorageBudgetForecast F)
  pub anomalies : List (PvcAnomaly F)
  pub changes : List (PvcRiskChange F)

-- The object as it is stored, the operator behind the request, and the reply.
pub record Reconciled (F : Type 0) : Type 0 where
  pub plan : CapacityPlan F
  pub operator : Operator F
  pub reply : Reply

module _ {F : Type 0} ⦃float : Float64 F⦄ (env : Environment F) where
  abbrev insight_of : Option (ActiveClient F) → Option (PvcContext F → Answer)
  insight_of none = none
  insight_of (some c) = some c.insight

  abbrev model_of : CapacityPlan F → ActiveLlm F → Model F
  model_of plan llm = record {
    client = insight_of llm.client;
    provider = llm.provider;
    label = llm.model;
    interval = llm_interval env plan.spec;
    only_alerting = plan.spec.llm.only_alerting_pvcs;
  }

  -- The loop over the volumes: their summaries and snapshots, and the series.
  unfoldable pub summarize :
      CapacityPlan F
      → Model F
      → Watcher
      → Dict (PvcSummary F)
      → List Pvc
      → Series F
      → List (PvcSummary F) × Dict (List Sample) × Series F
  summarize plan model w previous [] m = ([], [], m)
  summarize plan model w previous (pvc ∷ pvcs) m =
      let key = key_of pvc.namespace pvc.name in
      let samples = get_snapshot w key in
      let (before, after) = env.around key in
      let (s, m') =
        build_summary pvc.namespace pvc.name pvc (get_latest_capacity w key) samples
          (usage_threshold env plan.spec) (days_threshold env plan.spec) model
          (previous_of env (lookup key previous)) before after m in
      let (ss, snapshots, m'') = summarize plan model w previous pvcs m' in
      (s ∷ ss, insert key samples snapshots, m'')

  unfoldable pub analyse : CapacityPlan F → List (PvcSummary F) → Dict (List Sample) → Analysis F
  analyse plan summaries snapshots =
      let signals = build_pvc_risk_signals env.now summaries snapshots in
      let (workloads, errors) =
        build_pvc_workload_index env.get_replica_set env.get_job env.list_pods summaries ([], []) in
      let top_risks =
        enrich_top_risks_with_workloads (build_top_risks signals status_summary_top_n) workloads in
      let (namespaces, budgets) =
        build_budget_forecasts env.parse_quantity env.now summaries (index_signals signals [])
          plan.spec.budgets workloads in
      record {
        summaries = summaries;
        signals = signals;
        top_risks = top_risks;
        namespace_forecasts = namespaces;
        workload_forecasts = budgets;
        anomalies = detect_pvc_anomalies env.now signals workloads;
        changes = detect_risk_changes env.now plan.status.top_risks top_risks;
      }

  abbrev takes : Option (ActiveClient F) → Bool
  takes none = false
  takes (some c) = c.takes_prompts

  -- What there would be to hear; without a client nothing is asked.
  abbrev risk_answer_of : Option (ActiveClient F) → Answer
  risk_answer_of none = Answer.error false
  risk_answer_of (some c) = c.risk_answer

  abbrev budget_answer_of : Option (ActiveClient F) → Answer
  budget_answer_of none = Answer.error false
  budget_answer_of (some c) = c.budget_answer

  abbrev client_state :
      CapacityPlan F
      → ActiveLlm F
      → (prev_hash curr_hash prev_text : Str) → Option ℤ
      → LlmClientState
  client_state plan llm prev_hash curr_hash prev_text prev_time = record {
    has_client = is_some llm.client;
    takes_prompts = takes llm.client;
    provider = llm.provider;
    model = llm.model;
    interval = llm_interval env plan.spec;
    now = env.now;
    prev_hash = prev_hash;
    curr_hash = curr_hash;
    prev_text = prev_text;
    prev_time = prev_time;
    is_enabled = is_some llm.client;
  }

  abbrev budget_hash : List (StorageBudgetForecast F) → List (StorageBudgetForecast F) → Str
  budget_hash ns ws = compute_budget_forecast_hash env.sha256_hex ns ws

  -- The fields of the status but the conditions.
  unfoldable pub new_status : CapacityPlan F → ActiveLlm F → Analysis F → CapacityPlanStatus F
  new_status plan llm a =
      let old = plan.status in
      let hash = compute_risk_snapshot_hash env.sha256_hex a.top_risks in
      let (risk_text, risk_time) =
        refresh_plan_risk_change_insight
          (client_state plan llm old.risk_snapshot_hash hash old.llm_risk_change_summary
            old.last_llm_risk_change_time)
          (summarize_risk_changes a.changes) (risk_answer_of llm.client) in
      let (budget_text, budget_time) =
        refresh_plan_budget_recommendations
          (client_state plan llm (budget_hash old.namespace_forecasts old.workload_forecasts)
            (budget_hash a.namespace_forecasts a.workload_forecasts) old.llm_budget_recommendations
            old.last_llm_budget_recommendations_time)
          a.namespace_forecasts a.workload_forecasts (budget_answer_of llm.client) in
      record {
        conditions = old.conditions;
        pvcs = a.summaries;
        summary = build_status_summary a.summaries status_summary_top_n;
        top_risks = a.top_risks;
        risk_digest = build_risk_digest env.now a.top_risks;
        risk_changes = a.changes;
        risk_change_summary = summarize_risk_changes a.changes;
        llm_risk_change_summary = risk_text;
        last_llm_risk_change_time = risk_time;
        risk_snapshot_hash = hash;
        namespace_forecasts = a.namespace_forecasts;
        workload_forecasts = a.workload_forecasts;
        llm_budget_recommendations = budget_text;
        last_llm_budget_recommendations_time = budget_time;
        anomalies = a.anomalies;
        anomaly_summary = summarize_pvc_anomalies a.anomalies;
        last_reconcile_time = some env.finished;
        observed_generation = plan.generation;
      }

  abbrev with_condition : Str → Str × Str × Str → CapacityPlan F → CapacityPlan F
  with_condition kind (status, reason, message) plan =
      set_condition env.set_status_condition plan kind status reason message

  -- The four conditions.
  unfoldable pub with_conditions : ActiveLlm F → CapacityPlan F → CapacityPlan F
  with_conditions llm plan =
      let succeeded = bytes "Capacity plan reconciled successfully" in
      let p1 =
        with_condition (bytes "Ready") (bytes "True", bytes "ReconcileSucceeded", succeeded) plan in
      let p2 =
        with_condition (bytes "PrometheusReady") (prometheus_ready_status env plan.spec) p1 in
      let p3 = with_condition (bytes "LLMReady") llm.condition p2 in
      with_condition (bytes "BackfillReady") (backfill_ready_status env) p3

  abbrev pub requeue_interval : CapacityPlan F → ℤ
  requeue_interval plan =
      if leb_ℤ plan.spec.reconcile_interval (pos 0)
      then default_reconcile_interval
      else plan.spec.reconcile_interval

  -- The update: its error leaves the stored object as it was.
  unfoldable pub store : CapacityPlan F → CapacityPlan F → Operator F → Option Str → Reconciled F
  store old new op none = record {
    plan = new;
    operator = op;
    reply = requeue_after (requeue_interval new);
  }
  store old new op (some e) = record { plan = old; operator = op; reply = error }

  -- An active plan whose volumes are listed.
  unfoldable pub reconcile_volumes : CapacityPlan F → Operator F → List Pvc → Reconciled F
  reconcile_volumes plan op pvcs =
      let (llm, clients) = choose_llm env env.injected op.clients plan.spec in
      let previous = index_previous env plan.status.pvcs [] in
      let (summaries, snapshots, m) =
        summarize plan (model_of plan llm) op.watcher previous pvcs op.series in
      let a = analyse plan summaries snapshots in
      let m' =
        export_plan (index_signals a.signals []) summaries a.changes a.anomalies
          a.namespace_forecasts a.workload_forecasts m in
      let new = with_conditions llm (record plan { status = new_status plan llm a }) in
      store plan new (record op { clients = clients; series = m' }) (env.update new)

  abbrev listed : CapacityPlan F → Operator F → Option (List Pvc) → Reconciled F
  listed plan op none = record { plan = plan; operator = op; reply = error }
  listed plan op (some pvcs) = reconcile_volumes plan op pvcs

  unfoldable pub reconcile_active : CapacityPlan F → Operator F → Reconciled F
  reconcile_active plan op =
      let w =
        configure_watcher_for_plan env.new_prometheus_client env.default_client
          env.default_retention plan.spec op.watcher in
      listed plan (record op { watcher = w }) (list_scoped_pvcs env.list_pvcs plan.spec.namespaces)

  abbrev marked : CapacityPlan F → Operator F → CapacityPlan F × (Str ⊎ ℤ) → Reconciled F
  marked plan op (new, inl e) = record { plan = plan; operator = op; reply = error }
  marked plan op (new, inr t) = record { plan = new; operator = op; reply = requeue_after t }

  -- The error of the list of plans, or whether the plan is active, with the active one's name.
  unfoldable pub by_activity : CapacityPlan F → Operator F → Str ⊎ (Bool × Str) → Reconciled F
  by_activity plan op (inl e) = record { plan = plan; operator = op; reply = error }
  by_activity plan op (inr (true, name)) = reconcile_active plan op
  by_activity plan op (inr (false, name)) =
      marked plan op (mark_plan_inactive env.set_status_condition env.update env.now plan name)

  -- What `Reconcile` does with the plan that it found.
  unfoldable pub reconcile_plan : CapacityPlan F → Operator F → Reconciled F
  reconcile_plan plan op = by_activity plan op (is_active_plan env.list_plans plan)

  -- `Reconcile`; without a plan nothing is stored.
  unfoldable pub reconcile :
      Got (CapacityPlan F) → Operator F → Option (CapacityPlan F) × Operator F × Reply
  reconcile not_found op = (none, op, done)
  reconcile failed op = (none, op, error)
  reconcile (found plan) op = let r = reconcile_plan plan op in (some r.plan, r.operator, r.reply)
