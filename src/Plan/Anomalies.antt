-- ===== src/Plan/Anomalies.antt =====
-- detectPVCAnomalies and below in internal/controller/capacityplan_controller.go: unusual growth.
pub mod Detection
use capacity_planning_operat.Prelude.{
  ℕ, suc, ◌+◌, ◌*◌, Bool, ◌&&◌, List, [], ◌∷◌, ◌++◌, Option, none, some, ltb, ◌==◌, if◌then◌else◌,
}
use capacity_planning_operat.Prelude.Int.{ℤ, pos}
use capacity_planning_operat.Prelude.Text.{Str, bytes, str_eq, str_lt, itoa}
use capacity_planning_operat.Prelude.Sort.{sort_slice}
use capacity_planning_operat.Prelude.Dict.{Dict, lookup}
use capacity_planning_operat.Prelude.Float.{Float64, nought}
use capacity_planning_operat.Api.{PvcAnomaly}
use capacity_planning_operat.Metrics.{key_of}
use capacity_planning_operat.Watcher.{
  anomaly_acceleration_spike, anomaly_trend_instability, anomaly_sudden_growth,
}
use capacity_planning_operat.Plan.Signals.{PvcRiskSignal}
use capacity_planning_operat.Plan.TopRisks.{PvcWorkloadRef}

abbrev pub warning : Str
warning = bytes "warning"

abbrev pub critical : Str
critical = bytes "critical"

unfoldable pub anomaly_severity_rank : Str → ℕ
anomaly_severity_rank severity =
    if str_eq severity critical then 0 else (if str_eq severity warning then 1 else 2)

-- A key without an entry gives the empty reference.
abbrev pub workload_of : Dict PvcWorkloadRef → Str → PvcWorkloadRef
workload_of workloads key = elim (lookup key workloads) [
  | some ref ↦ ref
  | none ↦ record { kind = []; name = []; namespace = [] }
]

module _ {F : Type 0} where
  unfoldable pub build_anomaly :
      ℤ → PvcRiskSignal F → PvcWorkloadRef → Str → Str → Str → PvcAnomaly F
  build_anomaly now s ref anomaly_type severity message = record {
    namespace = s.namespace;
    name = s.name;
    anomaly_type = anomaly_type;
    severity = severity;
    message = message;
    time = now;
    workload_kind = ref.kind;
    workload_name = ref.name;
    weekly_growth_bytes_per_day = s.weekly_growth_bytes_per_day;
    daily_growth_bytes_per_day = s.daily_growth_bytes_per_day;
    growth_acceleration = s.growth_acceleration;
    confidence_r2 = s.confidence_r2;
  }

  unfoldable pub anomaly_less : PvcAnomaly F → PvcAnomaly F → Bool
  anomaly_less a b =
      let ri = anomaly_severity_rank a.severity in
      let rj = anomaly_severity_rank b.severity in
      if ri == rj
      then (if str_eq a.namespace b.namespace
          then (if str_eq a.name b.name
              then str_lt a.anomaly_type b.anomaly_type
              else str_lt a.name b.name)
          else str_lt a.namespace b.namespace)
      else ltb ri rj

  unfoldable pub count_type : Str → List (PvcAnomaly F) → ℕ
  count_type t [] = 0
  count_type t (a ∷ rest) =
      if str_eq a.anomaly_type t then suc (count_type t rest) else count_type t rest

  unfoldable pub summarize_pvc_anomalies : List (PvcAnomaly F) → Str
  unfolding count_type
  summarize_pvc_anomalies [] = bytes "No growth anomalies detected."
  summarize_pvc_anomalies (a ∷ rest) =
      bytes "Anomalies detected: acceleration_spike="
      ++ itoa (count_type anomaly_acceleration_spike (a ∷ rest))
      ++ bytes " trend_instability="
      ++ itoa (count_type anomaly_trend_instability (a ∷ rest))
      ++ bytes " sudden_growth="
      ++ itoa (count_type anomaly_sudden_growth (a ∷ rest))

module _ {F : Type 0} ⦃float : Float64 F⦄ where
  open float use {of_int, lit, mul, abs, lt, le, signed_fixed, fixed}

  -- The conditions of the three kinds, as functions of the weekly growth, the daily growth, the
  -- acceleration and the confidence.
  abbrev pub spikes : F → F → Bool
  spikes weekly acceleration = lt nought weekly && le (lit 75 100) acceleration

  abbrev pub is_unstable : F → F → Bool
  is_unstable weekly r2 =
      lt (of_int (pos (10 * 1024 * 1024))) (abs weekly) && (lt nought r2 && lt r2 (lit 35 100))

  abbrev pub is_sudden : F → F → Bool
  is_sudden weekly daily =
      lt nought weekly
      && (lt (mul weekly (lit 25 10)) daily && lt (of_int (pos (100 * 1024 * 1024))) daily)

  abbrev pub spike_severity : F → Str
  spike_severity acceleration = if le (lit 150 100) acceleration then critical else warning

  abbrev spike_message : F → Str
  spike_message acceleration =
      bytes "Daily growth accelerated "
      ++ signed_fixed 0 (mul acceleration (lit 100 1))
      ++ bytes "% vs weekly baseline"

  module _ (now : ℤ) where
    spike : PvcRiskSignal F → PvcWorkloadRef → List (PvcAnomaly F)
    spike s ref =
        if spikes s.weekly_growth_bytes_per_day s.growth_acceleration
        then build_anomaly now s ref anomaly_acceleration_spike
            (spike_severity s.growth_acceleration) (spike_message s.growth_acceleration)
          ∷ []
        else []

    instability : PvcRiskSignal F → PvcWorkloadRef → List (PvcAnomaly F)
    instability s ref =
        if is_unstable s.weekly_growth_bytes_per_day s.confidence_r2
        then build_anomaly now s ref anomaly_trend_instability warning
            (bytes "Trend confidence dropped to R2 " ++ fixed 2 s.confidence_r2)
          ∷ []
        else []

    jump : PvcRiskSignal F → PvcWorkloadRef → List (PvcAnomaly F)
    jump s ref =
        if is_sudden s.weekly_growth_bytes_per_day s.daily_growth_bytes_per_day
        then build_anomaly now s ref anomaly_sudden_growth critical
            (bytes "Daily growth significantly exceeds weekly trend baseline")
          ∷ []
        else []

    -- The body of the loop over the signals.
    anomalies_of : PvcRiskSignal F → PvcWorkloadRef → List (PvcAnomaly F)
    unfolding spike instability jump
    anomalies_of s ref = spike s ref ++ (instability s ref ++ jump s ref)

    collect : List (PvcRiskSignal F) → Dict PvcWorkloadRef → List (PvcAnomaly F)
    unfolding anomalies_of
    collect [] workloads = []
    collect (s ∷ ss) workloads =
        anomalies_of s (workload_of workloads (key_of s.namespace s.name)) ++ collect ss workloads

    unfoldable pub detect_pvc_anomalies :
        List (PvcRiskSignal F) → Dict PvcWorkloadRef → List (PvcAnomaly F)
    unfolding collect
    detect_pvc_anomalies signals workloads = sort_slice anomaly_less (collect signals workloads)
