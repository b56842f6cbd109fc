-- ===== src/Plan/Setup.antt =====
-- listScopedPVCs and configureWatcherForPlan of internal/controller/capacityplan_controller.go: which
-- volumes a plan is about, and how the plan sets up the watcher.
pub mod Scope
use capacity_planning_operat.Prelude.{Bool, List, [], ◌∷◌, ◌++◌, Option, none, some, if◌then◌else◌}
use capacity_planning_operat.Prelude.Int.{ℤ, pos, ltb_ℤ, leb_ℤ}
use capacity_planning_operat.Prelude.Text.{Str, is_empty}
use capacity_planning_operat.Api.{CapacityPlanSpec}
use capacity_planning_operat.Metrics.{PvcMetricsClient}
use capacity_planning_operat.Watcher.{Watcher, Pvc, configure, default_sample_interval}

abbrev pub appended : Option (List Pvc) → Option (List Pvc) → Option (List Pvc)
appended none rest = none
appended (some xs) none = none
appended (some xs) (some rest) = some (xs ++ rest)

-- `list` is the list call, of one namespace or of all; its error is `none`.
module _ (list : Option Str → Option (List Pvc)) where
  unfoldable pub list_each : List Str → Option (List Pvc)
  list_each [] = some []
  list_each (ns ∷ rest) = appended (list (some ns)) (list_each rest)

  unfoldable pub list_scoped_pvcs : List Str → Option (List Pvc)
  unfolding list_each
  list_scoped_pvcs [] = list none
  list_scoped_pvcs (ns ∷ rest) = list_each (ns ∷ rest)

-- The retention that a plan asks for, given the operator's default.
abbrev pub plan_retention : ℤ → ℤ → ℤ
plan_retention retention default_retention =
    if leb_ℤ retention (pos 0)
    then (if ltb_ℤ (pos 0) default_retention then default_retention else pos 720)
    else retention

module _ {F : Type 0} where
  -- The watcher exists; without one the code returns at once.
  unfoldable pub configure_watcher_for_plan :
      (Str → PvcMetricsClient)
      → Option PvcMetricsClient
      → ℤ
      → CapacityPlanSpec F
      → Watcher
      → Watcher
  configure_watcher_for_plan new_prometheus_client default_client default_retention spec w =
      let client =
        if is_empty spec.prometheus_url
        then default_client
        else some (new_prometheus_client spec.prometheus_url) in
      let interval =
        if leb_ℤ spec.sample_interval (pos 0)
        then default_sample_interval
        else spec.sample_interval in
      configure w client (plan_retention spec.sample_retention default_retention) interval
