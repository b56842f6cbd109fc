-- ===== src/Plan/TopRisks.antt =====
-- buildTopRisks and enrichTopRisksWithWorkloads of internal/controller/capacityplan_controller.go: the
-- growing volumes, fastest first.
pub mod Ranking
use capacity_planning_operat.Prelude.{
  ℕ, Bool, List, [], ◌∷◌, Option, none, some, ◌==◌, if◌then◌else◌, select, take, map,
}
use capacity_planning_operat.Prelude.Int.{ℤ, pos, leb_ℤ, pos_part}
use capacity_planning_operat.Prelude.Text.{Str, str_eq, str_lt}
use capacity_planning_operat.Prelude.Sort.{sort_slice}
use capacity_planning_operat.Prelude.Dict.{Dict, lookup}
use capacity_planning_operat.Prelude.Float.{Float64, nought}
use capacity_planning_operat.Api.{PvcRiskSummary}
use capacity_planning_operat.Metrics.{key_of}
use capacity_planning_operat.Plan.Signals.{PvcRiskSignal}

abbrev pub status_summary_top_n : ℤ
status_summary_top_n = pos 3

-- The loops `for i := 0; i < len(xs) && i < topN; i++`, after the default for `topN`.
abbrev pub top_n : ℤ → ℕ
top_n n = if leb_ℤ n (pos 0) then pos_part status_summary_top_n else pos_part n

pub record PvcWorkloadRef : Type 0 where
  pub kind : Str
  pub name : Str
  pub namespace : Str

module _ {F : Type 0} ⦃float : Float64 F⦄ where
  open float use {lt, eq, max_float}

  abbrev pub days_or_max : Option F → F
  days_or_max none = max_float
  days_or_max (some d) = d

  unfoldable pub risk_less : PvcRiskSignal F → PvcRiskSignal F → Bool
  risk_less a b =
      let di = days_or_max a.days_until_full in
      let dj = days_or_max b.days_until_full in
      if eq a.weekly_growth_bytes_per_day b.weekly_growth_bytes_per_day
      then (if eq di dj
          then (if str_eq a.namespace b.namespace
              then str_lt a.name b.name
              else str_lt a.namespace b.namespace)
          else lt di dj)
      else lt b.weekly_growth_bytes_per_day a.weekly_growth_bytes_per_day

  unfoldable pub to_risk_summary : PvcRiskSignal F → PvcRiskSummary F
  to_risk_summary s = record {
    namespace = s.namespace;
    name = s.name;
    workload_kind = [];
    workload_name = [];
    workload_namespace = [];
    used_bytes = s.used_bytes;
    capacity_bytes = s.capacity_bytes;
    usage_ratio = s.usage_ratio;
    weekly_growth_bytes_per_day = s.weekly_growth_bytes_per_day;
    daily_growth_bytes_per_day = s.daily_growth_bytes_per_day;
    growth_acceleration = s.growth_acceleration;
    confidence_r2 = s.confidence_r2;
    days_until_full = s.days_until_full;
    projected_full_at = s.projected_full_at;
    llm_insight = s.llm_insight;
    alert_firing = s.alert_firing;
  }

  abbrev pub growing : PvcRiskSignal F → Bool
  growing s = lt nought s.weekly_growth_bytes_per_day

  unfoldable pub ranked_risks : List (PvcRiskSignal F) → List (PvcRiskSignal F)
  ranked_risks signals = sort_slice risk_less (select growing signals)

  unfoldable pub build_top_risks : List (PvcRiskSignal F) → ℤ → List (PvcRiskSummary F)
  unfolding ranked_risks
  build_top_risks signals n = map to_risk_summary (take (top_n n) (ranked_risks signals))

  enrich : Dict PvcWorkloadRef → PvcRiskSummary F → PvcRiskSummary F
  enrich workloads r = elim (lookup (key_of r.namespace r.name) workloads) [
    | none ↦ r
    | some ref ↦ record r {
      workload_kind = ref.kind;
      workload_name = ref.name;
      workload_namespace = ref.namespace;
    }
  ]

  unfoldable pub enrich_top_risks_with_workloads :
      List (PvcRiskSummary F) → Dict PvcWorkloadRef → List (PvcRiskSummary F)
  unfolding enrich
  enrich_top_risks_with_workloads risks workloads = map (enrich workloads) risks
