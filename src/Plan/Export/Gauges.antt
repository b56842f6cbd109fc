-- ===== src/Plan/Export/Gauges.antt =====
-- What the gauge of an anomaly shows behind the export.
use capacity_planning_operat.Prelude.{
  ◌≡◌, refl, ◌∙◌, Bool, true, ◌||◌, List, [], ◌∷◌, ◌++◌, some, arith, if◌then◌else◌,
}
use mathlib.Core.Path.{ap}
use capacity_planning_operat.Prelude.Text.{Str, bytes, str_eq}
use capacity_planning_operat.Prelude.Dict.{Dict}
use capacity_planning_operat.Prelude.Float.{Float64, nought}
use capacity_planning_operat.Operator.{
  Key, Series, key_eq, among, value_of, set_value, value_of-set_value, value_of-set_other,
  value_of-increment_other, value_of-reset_metric,
}
use capacity_planning_operat.Api.{PvcSummary, PvcRiskChange, PvcAnomaly, StorageBudgetForecast}
use capacity_planning_operat.Watcher.{supported_anomaly_types}
use capacity_planning_operat.Plan.Signals.{PvcRiskSignal}
use capacity_planning_operat.Plan.Export.{
  anomaly_metric, anomaly_key, clear_anomalies, export_summary, export_summaries, count_changes,
  export_anomalies, export_namespace_budgets, export_workload_budgets, export_plan,
  namespace_budget_metric, workload_budget_metric,
}

abbrev pub keys_of : {F : Type 0} → List (PvcAnomaly F) → List Key
keys_of [] = []
keys_of (a ∷ rest) = anomaly_key a.namespace a.name a.anomaly_type ∷ keys_of rest

abbrev pub typed_keys : Str → Str → List Str → List Key
typed_keys namespace name [] = []
typed_keys namespace name (t ∷ ts) = anomaly_key namespace name t ∷ typed_keys namespace name ts

-- The series that the summaries have.
abbrev pub cleared_keys : {F : Type 0} → List (PvcSummary F) → List Key
cleared_keys [] = []
cleared_keys (s ∷ ss) = typed_keys s.namespace s.name supported_anomaly_types ++ cleared_keys ss

-- A value that is set twice.
module _ {A : Type 0} where
  if_or :
      (a b : Bool) (x v : A) → (if a then x else (if b then x else v)) ≡ (if b || a then x else v)
  if_or a b x v = ground arith

  if_if :
      (a b : Bool) (x v : A)
      → (if a then x else (if b then x else v)) ≡ (if (if b then true else a) then x else v)
  if_if a b x v = ground arith

among-append : (j : Key) (ks ls : List Key) → among j (ks ++ ls) ≡ (among j ks || among j ls)
among-append j [] ls = refl
among-append j (k ∷ ks) ls = ground (arith, among-append j ks ls)

module _ {F : Type 0} ⦃float : Float64 F⦄ (l : Key) where
  value_of-clear_anomalies :
      (namespace name : Str) (ts : List Str) (m : Series F)
      → value_of (anomaly_metric ∷ l) (clear_anomalies namespace name ts m) ≡ (
          if among (anomaly_metric ∷ l) (typed_keys namespace name ts)
          then some nought
          else value_of (anomaly_metric ∷ l) m)
  unfolding clear_anomalies
  value_of-clear_anomalies namespace name [] m = refl
  value_of-clear_anomalies namespace name (t ∷ ts) m =
      let k = anomaly_key namespace name t in
      ground (
        arith,
        value_of-clear_anomalies namespace name ts (set_value k nought m),
        value_of-set_value k (anomaly_metric ∷ l) nought m,
      )

  value_of-export_summary :
      (risks : Dict (PvcRiskSignal F)) (s : PvcSummary F) (m : Series F)
      → value_of (anomaly_metric ∷ l) (export_summary risks s m) ≡ (
          if among (anomaly_metric ∷ l) (typed_keys s.namespace s.name supported_anomaly_types)
          then some nought
          else value_of (anomaly_metric ∷ l) m)
  unfolding export_summary str_eq
  value_of-export_summary risks s m =
      value_of-clear_anomalies s.namespace s.name supported_anomaly_types _
      ∙ ap
          (λ v.
            if among (anomaly_metric ∷ l) (typed_keys s.namespace s.name supported_anomaly_types)
            then some nought
            else v)
          (value_of-set_other (bytes "capacityplan_pvc_projected_full_timestamp_seconds")
              anomaly_metric l refl _ _ _
            ∙ value_of-set_other (bytes "capacityplan_pvc_growth_acceleration") anomaly_metric l
                refl _ _ _
            ∙ value_of-set_other (bytes "capacityplan_pvc_days_until_full") anomaly_metric l refl _
                _ _
            ∙ value_of-set_other (bytes "capacityplan_pvc_growth_bytes_per_day") anomaly_metric l
                refl _ _ _)

  value_of-export_summaries :
      (risks : Dict (PvcRiskSignal F)) (ss : List (PvcSummary F)) (m : Series F)
      → value_of (anomaly_metric ∷ l) (export_summaries risks ss m) ≡ (
          if among (anomaly_metric ∷ l) (cleared_keys ss)
          then some nought
          else value_of (anomaly_metric ∷ l) m)
  unfolding export_summaries
  value_of-export_summaries risks [] m = refl
  value_of-export_summaries risks (s ∷ ss) m =
      let j = anomaly_metric ∷ l in
      let ks = typed_keys s.namespace s.name supported_anomaly_types in
      rw
        (
          value_of-export_summaries risks ss (export_summary risks s m),
          value_of-export_summary risks s m,
          among-append j ks (cleared_keys ss),
        )
        (if_or (among j (cleared_keys ss)) (among j ks) _ _)

  value_of-count_changes :
      (cs : List (PvcRiskChange F)) (m : Series F)
      → value_of (anomaly_metric ∷ l) (count_changes cs m) ≡ value_of (anomaly_metric ∷ l) m
  unfolding count_changes str_eq
  value_of-count_changes [] m = refl
  value_of-count_changes (c ∷ cs) m =
      value_of-count_changes cs _
      ∙ value_of-increment_other (bytes "capacityplan_pvc_risk_changes_total") anomaly_metric l refl
          _ m

  value_of-export_anomalies :
      (found : List (PvcAnomaly F)) (m : Series F)
      → value_of (anomaly_metric ∷ l) (export_anomalies found m) ≡ (
          if among (anomaly_metric ∷ l) (keys_of found)
          then some (float.lit 1 1)
          else value_of (anomaly_metric ∷ l) m)
  unfolding export_anomalies str_eq
  value_of-export_anomalies [] m = refl
  value_of-export_anomalies (a ∷ rest) m =
      let j = anomaly_metric ∷ l in
      let k = anomaly_key a.namespace a.name a.anomaly_type in
      let one = float.lit 1 1 in
      let counted =
        value_of-increment_other (bytes "capacityplan_pvc_anomalies_total") anomaly_metric l refl
          (a.anomaly_type ∷ []) (set_value k one m) in
      rw (value_of-export_anomalies rest _, counted, value_of-set_value k j one m)
        (if_if (among j (keys_of rest)) (key_eq k j) _ _)

  value_of-export_namespace_budgets :
      (fs : List (StorageBudgetForecast F)) (m : Series F)
      → value_of (anomaly_metric ∷ l) (export_namespace_budgets fs m)
        ≡ value_of (anomaly_metric ∷ l) m
  unfolding export_namespace_budgets str_eq
  value_of-export_namespace_budgets [] m = refl
  value_of-export_namespace_budgets (f ∷ fs) m =
      value_of-export_namespace_budgets fs _
      ∙ value_of-set_other namespace_budget_metric anomaly_metric l refl _ _ m

  value_of-export_workload_budgets :
      (fs : List (StorageBudgetForecast F)) (m : Series F)
      → value_of (anomaly_metric ∷ l) (export_workload_budgets fs m)
        ≡ value_of (anomaly_metric ∷ l) m
  unfolding export_workload_budgets str_eq
  value_of-export_workload_budgets [] m = refl
  value_of-export_workload_budgets (f ∷ fs) m =
      value_of-export_workload_budgets fs _
      ∙ value_of-set_other workload_budget_metric anomaly_metric l refl _ _ m

  -- Behind the export the gauge of every anomaly that is reported shows 1, every other one of a volume
  -- with a summary shows 0, and the rest shows what it did.
  pub value_of-export_plan :
      (risks : Dict (PvcRiskSignal F)) (summaries : List (PvcSummary F))
      (changes : List (PvcRiskChange F)) (anomalies : List (PvcAnomaly F))
      (namespaces workloads : List (StorageBudgetForecast F)) (m : Series F)
      → value_of
          (anomaly_metric ∷ l)
          (export_plan risks summaries changes anomalies namespaces workloads m)
        ≡ (if among (anomaly_metric ∷ l) (keys_of anomalies)
            then some (float.lit 1 1)
            else (if among (anomaly_metric ∷ l) (cleared_keys summaries)
                then some nought
                else value_of (anomaly_metric ∷ l) m))
  unfolding export_plan str_eq
  value_of-export_plan risks summaries changes anomalies namespaces workloads m =
      value_of-export_workload_budgets workloads _
      ∙ value_of-reset_metric workload_budget_metric anomaly_metric l refl _
      ∙ value_of-export_namespace_budgets namespaces _
      ∙ value_of-reset_metric namespace_budget_metric anomaly_metric l refl _
      ∙ value_of-export_anomalies anomalies _
      ∙ ap (λ v. if among (anomaly_metric ∷ l) (keys_of anomalies) then some (float.lit 1 1) else v)
          (value_of-count_changes changes _ ∙ value_of-export_summaries risks summaries m)
