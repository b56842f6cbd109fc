-- ===== src/Plan/Active.antt =====
-- pickActivePlan, isActivePlan and markPlanInactive of internal/controller/capacityplan_controller.go:
-- of several plans only the oldest is acted on. The list of plans, the update of the status and the
-- library's `meta.SetStatusCondition` are parameters.
use capacity_planning_operat.Prelude.{
  ◌≡◌, refl, Bool, true, List, [], ◌∷◌, ◌++◌, Option, none, some, ◌⊎◌, inl, inr, Bool-cases,
  if◌then◌else◌, All,
}
use capacity_planning_operat.Prelude.Int.{ℤ, pos, ltb_ℤ, leb_ℤ, eqb_ℤ}
use capacity_planning_operat.Prelude.Text.{Str, bytes, str_eq, str_lt}
use capacity_planning_operat.Prelude.Print.{quoted}
use capacity_planning_operat.Prelude.Sort.{
  sort_slice, insert_sorted, IsOrder, IsTop, IsTop-same, take-IsTop,
}
use capacity_planning_operat.Prelude.Lex.{
  by_first_difference, lex-IsOrder, Anything, int-IsWeakOrder, by_name-IsOrder,
}
use capacity_planning_operat.Api.{CapacityPlan, CapacityPlanSummary, Condition}
use capacity_planning_operat.Plan.Signals.{hour}

abbrev pub default_reconcile_interval : ℤ
default_reconcile_interval = pos hour

abbrev empty_summary : {F : Type 0} → CapacityPlanSummary F
empty_summary = record {
  total_pvcs = 0;
  alerting_pvcs = 0;
  top_by_usage = [];
  top_by_soonest_to_full = [];
  top_by_growth = [];
}

module _ {F : Type 0} where
  unfoldable pub plan_less : CapacityPlan F → CapacityPlan F → Bool
  plan_less a b =
      if eqb_ℤ a.creation_timestamp b.creation_timestamp
      then str_lt a.name b.name
      else ltb_ℤ a.creation_timestamp b.creation_timestamp

  abbrev first : List (CapacityPlan F) → Option (CapacityPlan F)
  first [] = none
  first (p ∷ ps) = some p

  unfoldable pub pick_active_plan : List (CapacityPlan F) → Option (CapacityPlan F)
  pick_active_plan plans = first (sort_slice plan_less plans)

  is_picked : CapacityPlan F → Option (CapacityPlan F) → Bool × Str
  is_picked plan none = (true, plan.name)
  is_picked plan (some active) = (str_eq plan.name active.name, active.name)

  -- The error of the list call, or whether the plan is the active one and the active one's name.
  unfoldable pub is_active_plan : Str ⊎ List (CapacityPlan F) → CapacityPlan F → Str ⊎ (Bool × Str)
  unfolding is_picked
  is_active_plan (inl err) plan = inl err
  is_active_plan (inr plans) plan = inr (is_picked plan (pick_active_plan plans))

  module _ (set_status_condition : List Condition → Condition → List Condition) where
    unfoldable pub set_condition : CapacityPlan F → Str → Str → Str → Str → CapacityPlan F
    set_condition plan condition_type status reason message =
        let conditions = set_status_condition plan.status.conditions (record {
          condition_type = condition_type;
          status = status;
          observed_generation = plan.generation;
          reason = reason;
          message = message;
        }) in
        record plan { status = record (plan.status) { conditions = conditions } }

    cleared : ℤ → CapacityPlan F → CapacityPlan F
    cleared now plan = record plan {
      status = record (plan.status) {
        pvcs = [];
        summary = empty_summary;
        top_risks = [];
        risk_digest = [];
        risk_changes = [];
        risk_change_summary = [];
        llm_risk_change_summary = [];
        last_llm_risk_change_time = none;
        risk_snapshot_hash = [];
        namespace_forecasts = [];
        workload_forecasts = [];
        llm_budget_recommendations = [];
        last_llm_budget_recommendations_time = none;
        anomalies = [];
        anomaly_summary = [];
        last_reconcile_time = some now;
        observed_generation = plan.generation;
      };
    }

    -- The plan that is written, and the error of the write or the time until the next reconcile.
    unfoldable pub mark_plan_inactive :
        (CapacityPlan F → Option Str) → ℤ → CapacityPlan F → Str → CapacityPlan F × (Str ⊎ ℤ)
    unfolding cleared
    mark_plan_inactive update now plan active_plan_name =
        let reason = bytes "NotActivePlan" in
        let message = bytes "Plan is inactive; active plan is " ++ quoted active_plan_name in
        let unknown = bytes "Unknown" in
        let p0 = cleared now plan in
        let p1 = set_condition p0 (bytes "Ready") (bytes "False") reason message in
        let p2 = set_condition p1 (bytes "PrometheusReady") unknown reason message in
        let p3 = set_condition p2 (bytes "LLMReady") unknown reason message in
        let p4 = set_condition p3 (bytes "BackfillReady") unknown reason message in
        let interval =
          if leb_ℤ plan.spec.reconcile_interval (pos 0)
          then default_reconcile_interval
          else plan.spec.reconcile_interval in
        let answer : Str ⊎ ℤ = elim (update p4) [ some err ↦ inl err | none ↦ inr interval ] in
        (p4, answer)

  plan_less-IsOrder : IsOrder plan_less Anything
  unfolding plan_less
  plan_less-IsOrder =
      lex-IsOrder Anything {Q = Anything} (λ p. p.creation_timestamp) (λ p h. tt) int-IsWeakOrder
        (by_name-IsOrder Anything (λ p. p.name))

  insert_sorted_cons :
      (x : CapacityPlan F) (ys : List (CapacityPlan F))
      → (z : CapacityPlan F) × (zs : List (CapacityPlan F)) × (insert_sorted plan_less x ys
          ≡ z ∷ zs)
  unfolding insert_sorted
  insert_sorted_cons x [] = (x, [], refl)
  insert_sorted_cons x (y ∷ ys) = elim (Bool-cases (plan_less x y)) [
    | inl e ↦ (x, y ∷ ys, rw e refl)
    | inr e ↦ (y, insert_sorted plan_less x ys, rw e refl)
  ]

  Anything-All : (ps : List (CapacityPlan F)) → All Anything ps
  Anything-All [] = tt
  Anything-All (p ∷ ps) = (tt, Anything-All ps)

  -- The earlier creation time, then the name.
  abbrev pub is_older : CapacityPlan F → CapacityPlan F → Bool
  is_older a b =
      by_first_difference
        ((
          eqb_ℤ a.creation_timestamp b.creation_timestamp,
          ltb_ℤ a.creation_timestamp b.creation_timestamp,
        )
          ∷ [])
        (str_lt a.name b.name)

  plan_less-is_older : (a b : CapacityPlan F) → plan_less a b ≡ is_older a b
  unfolding plan_less
  plan_less-is_older a b = refl

  -- Whenever there is a plan, one listed plan is the oldest: none was created before it, and of those
  -- created with it none has a lesser name. Exactly the plans of its name are told that they are
  -- active; all are told its name.
  pub is_active_plan_oldest :
      (p : CapacityPlan F) (ps : List (CapacityPlan F))
      → (oldest : CapacityPlan F) × (others : List (CapacityPlan F)) × IsTop is_older 1
          (p ∷ ps)
          (oldest ∷ [])
          others
        × ((plan : CapacityPlan F)
            → is_active_plan (inr (p ∷ ps)) plan ≡ inr (str_eq plan.name oldest.name, oldest.name))
  unfolding is_active_plan sort_slice pick_active_plan
  is_active_plan_oldest p ps =
      let (z, zs, e) = insert_sorted_cons p (sort_slice plan_less ps) in
      let top =
        IsTop-same plan_less is_older plan_less-is_older
          (take-IsTop plan_less Anything 1 (p ∷ ps) plan_less-IsOrder (Anything-All (p ∷ ps))) in
      (z, zs, rw e at top, λ plan. rw e refl)
