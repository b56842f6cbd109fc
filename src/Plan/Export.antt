-- ===== src/Plan/Export.antt =====
-- The middle of Reconcile in internal/controller/capacityplan_controller.go: the gauges and counters that
-- the operator exports for a plan.
pub mod Gauges
use capacity_planning_operat.Prelude.{List, [], ◌∷◌, Option, none, some}
use capacity_planning_operat.Prelude.Int.{ℤ, pos, negsuc, floor_div}
use capacity_planning_operat.Prelude.Text.{Str, bytes}
use capacity_planning_operat.Prelude.Dict.{Dict, insert, lookup}
use capacity_planning_operat.Prelude.Float.{Float64, nought}
use capacity_planning_operat.Operator.{Key, Series, set_value, reset_metric, increment}
use capacity_planning_operat.Metrics.{key_of}
use capacity_planning_operat.Api.{PvcSummary, PvcRiskChange, PvcAnomaly, StorageBudgetForecast}
use capacity_planning_operat.Watcher.{supported_anomaly_types}
use capacity_planning_operat.Plan.Signals.{PvcRiskSignal}

-- `riskByKey`.
unfoldable pub index_signals :
    {F : Type 0} → List (PvcRiskSignal F) → Dict (PvcRiskSignal F) → Dict (PvcRiskSignal F)
index_signals [] out = out
index_signals (s ∷ ss) out = index_signals ss (insert (key_of s.namespace s.name) s out)

abbrev pub anomaly_metric : Str
anomaly_metric = bytes "capacityplan_pvc_anomaly"

abbrev pub anomaly_key : Str → Str → Str → Key
anomaly_key namespace name type = anomaly_metric ∷ namespace ∷ name ∷ type ∷ []

abbrev pub namespace_budget_metric : Str
namespace_budget_metric = bytes "capacityplan_namespace_budget_days_to_breach"

abbrev pub workload_budget_metric : Str
workload_budget_metric = bytes "capacityplan_workload_budget_days_to_breach"

module _ {F : Type 0} ⦃float : Float64 F⦄ where
  open float use {of_int, lit}

  abbrev or_minus_one : Option F → F
  or_minus_one none = of_int (negsuc 0)
  or_minus_one (some x) = x

  abbrev unix_or_minus_one : Option ℤ → F
  unix_or_minus_one none = of_int (negsuc 0)
  unix_or_minus_one (some t) = of_int (floor_div t 1_000_000_000)

  -- A volume without a signal has the zero value of one.
  abbrev acceleration_of : Option (PvcRiskSignal F) → F
  acceleration_of none = nought
  acceleration_of (some s) = s.growth_acceleration

  abbrev projected_of : Option (PvcRiskSignal F) → Option ℤ
  projected_of none = none
  projected_of (some s) = s.projected_full_at

  -- The loop over the types of anomalies.
  unfoldable pub clear_anomalies : Str → Str → List Str → Series F → Series F
  clear_anomalies namespace name [] m = m
  clear_anomalies namespace name (t ∷ ts) m =
      clear_anomalies namespace name ts (set_value (anomaly_key namespace name t) nought m)

  unfoldable pub export_summary : Dict (PvcRiskSignal F) → PvcSummary F → Series F → Series F
  export_summary risks s m =
      let signal = lookup (key_of s.namespace s.name) risks in
      let labels = s.namespace ∷ s.name ∷ [] in
      let m₁ =
        set_value (bytes "capacityplan_pvc_growth_bytes_per_day" ∷ labels) s.growth_bytes_per_day
          m in
      let m₂ =
        set_value (bytes "capacityplan_pvc_days_until_full" ∷ labels)
          (or_minus_one s.days_until_full) m₁ in
      let m₃ =
        set_value (bytes "capacityplan_pvc_growth_acceleration" ∷ labels) (acceleration_of signal)
          m₂ in
      let m₄ =
        set_value (bytes "capacityplan_pvc_projected_full_timestamp_seconds" ∷ labels)
          (unix_or_minus_one (projected_of signal)) m₃ in
      clear_anomalies s.namespace s.name supported_anomaly_types m₄

  unfoldable pub export_summaries :
      Dict (PvcRiskSignal F) → List (PvcSummary F) → Series F → Series F
  export_summaries risks [] m = m
  export_summaries risks (s ∷ ss) m = export_summaries risks ss (export_summary risks s m)

  unfoldable pub count_changes : List (PvcRiskChange F) → Series F → Series F
  count_changes [] m = m
  count_changes (c ∷ cs) m =
      count_changes cs
        (increment (bytes "capacityplan_pvc_risk_changes_total" ∷ c.change_type ∷ []) m)

  unfoldable pub export_anomalies : List (PvcAnomaly F) → Series F → Series F
  export_anomalies [] m = m
  export_anomalies (a ∷ rest) m =
      let m₁ = set_value (anomaly_key a.namespace a.name a.anomaly_type) (lit 1 1) m in
      export_anomalies rest
        (increment (bytes "capacityplan_pvc_anomalies_total" ∷ a.anomaly_type ∷ []) m₁)

  unfoldable pub export_namespace_budgets : List (StorageBudgetForecast F) → Series F → Series F
  export_namespace_budgets [] m = m
  export_namespace_budgets (f ∷ fs) m =
      export_namespace_budgets fs (
        set_value (namespace_budget_metric ∷ f.namespace ∷ []) (or_minus_one f.days_until_breach) m)

  unfoldable pub export_workload_budgets : List (StorageBudgetForecast F) → Series F → Series F
  export_workload_budgets [] m = m
  export_workload_budgets (f ∷ fs) m = export_workload_budgets fs (
      set_value (workload_budget_metric ∷ f.namespace ∷ f.kind ∷ f.name ∷ [])
        (or_minus_one f.days_until_breach) m)

  -- All of it, in the order of the code.
  unfoldable pub export_plan :
      Dict (PvcRiskSignal F)
      → List (PvcSummary F)
      → List (PvcRiskChange F)
      → List (PvcAnomaly F)
      → List (StorageBudgetForecast F)
      → List (StorageBudgetForecast F)
      → Series F
      → Series F
  export_plan risks summaries changes anomalies namespaces workloads m =
      let m₁ = export_summaries risks summaries m in
      let m₂ = count_changes changes m₁ in
      let m₃ = export_anomalies anomalies m₂ in
      let m₄ = export_namespace_budgets namespaces (reset_metric namespace_budget_metric m₃) in
      export_workload_budgets workloads (reset_metric workload_budget_metric m₄)
