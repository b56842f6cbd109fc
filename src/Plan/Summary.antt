-- ===== src/Plan/Summary.antt =====
-- buildStatusSummary and toBrief of internal/controller/capacityplan_controller.go: the counts and
-- leaderboards of a plan's status.
pub mod Leaderboards
use capacity_planning_operat.Prelude.{
  ℕ, suc, ◌+◌, Bool, List, [], ◌∷◌, Option, none, some, if◌then◌else◌, length, select, take, map,
  is_some,
}
use capacity_planning_operat.Prelude.Int.{ℤ}
use capacity_planning_operat.Prelude.Text.{str_eq, str_lt}
use capacity_planning_operat.Prelude.Sort.{sort_slice}
use capacity_planning_operat.Prelude.Float.{Float64, nought}
use capacity_planning_operat.Api.{PvcSummary, PvcSummaryBrief, CapacityPlanSummary}
use capacity_planning_operat.Plan.TopRisks.{top_n}

module _ {F : Type 0} where
  abbrev pub to_brief : PvcSummary F → PvcSummaryBrief F
  to_brief s = record {
    namespace = s.namespace;
    name = s.name;
    usage_ratio = s.usage_ratio;
    growth_bytes_per_day = s.growth_bytes_per_day;
    days_until_full = s.days_until_full;
    alert_firing = s.alert_firing;
  }

  -- The loop that counts the alerting volumes.
  unfoldable pub count_alerting : List (PvcSummary F) → ℕ
  count_alerting [] = 0
  count_alerting (s ∷ ss) =
      let rest = count_alerting ss in if s.alert_firing then suc rest else rest

  abbrev pub has_days : PvcSummary F → Bool
  has_days s = is_some s.days_until_full

module _ {F : Type 0} ⦃float : Float64 F⦄ where
  open float use {lt, eq}

  unfoldable pub usage_less : PvcSummary F → PvcSummary F → Bool
  usage_less a b =
      if eq a.usage_ratio b.usage_ratio
      then (if str_eq a.namespace b.namespace
          then str_lt a.name b.name
          else str_lt a.namespace b.namespace)
      else lt b.usage_ratio a.usage_ratio

  -- `*DaysUntilFull`; only volumes that have it are compared.
  abbrev pub days_of : PvcSummary F → F
  days_of s = elim s.days_until_full [ some d ↦ d | none ↦ nought ]

  unfoldable pub soonest_less : PvcSummary F → PvcSummary F → Bool
  soonest_less a b =
      if eq (days_of a) (days_of b)
      then (if str_eq a.namespace b.namespace
          then str_lt a.name b.name
          else str_lt a.namespace b.namespace)
      else lt (days_of a) (days_of b)

  abbrev pub grows : PvcSummary F → Bool
  grows s = lt nought s.growth_bytes_per_day

  unfoldable pub growth_less : PvcSummary F → PvcSummary F → Bool
  growth_less a b =
      if eq a.growth_bytes_per_day b.growth_bytes_per_day
      then (if str_eq a.namespace b.namespace
          then str_lt a.name b.name
          else str_lt a.namespace b.namespace)
      else lt b.growth_bytes_per_day a.growth_bytes_per_day

  unfoldable pub build_status_summary : List (PvcSummary F) → ℤ → CapacityPlanSummary F
  unfolding count_alerting
  build_status_summary items n = record {
    total_pvcs = length items;
    alerting_pvcs = count_alerting items;
    top_by_usage = map to_brief (take (top_n n) (sort_slice usage_less items));
    top_by_soonest_to_full =
        map to_brief (take (top_n n) (sort_slice soonest_less (select has_days items)));
    top_by_growth = map to_brief (take (top_n n) (sort_slice growth_less (select grows items)));
  }
