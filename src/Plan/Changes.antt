-- ===== src/Plan/Changes.antt =====
-- detectRiskChanges and below in internal/controller/capacityplan_controller.go: what became of the
-- top risks since the last reconcile. The code ranges over its two maps in no particular order and
-- then sorts; the model ranges in the order of insertion.
pub mod Report
pub mod Detection
pub mod Completeness
use capacity_planning_operat.Prelude.{
  ℕ, suc, ◌*◌, ◌+◌, Bool, true, false, ◌&&◌, ◌||◌, not, List, [], ◌∷◌, ◌++◌, Option, none, some,
  ◌==◌, if◌then◌else◌, length,
}
use capacity_planning_operat.Prelude.Int.{ℤ, pos, ◌-ℤ◌, ltb_ℤ}
use capacity_planning_operat.Prelude.Text.{Str, bytes, str_eq, str_lt, itoa}
use capacity_planning_operat.Prelude.Time.{format_date}
use capacity_planning_operat.Prelude.Sort.{sort_slice}
use capacity_planning_operat.Prelude.Dict.{Dict, lookup, insert}
use capacity_planning_operat.Prelude.Float.{Float64, nought}
use capacity_planning_operat.Api.{PvcRiskSummary, PvcRiskChange}
use capacity_planning_operat.Metrics.{key_of}
use capacity_planning_operat.Plan.Signals.{hour}

abbrev pub risk_escalation_date_delta : ℤ
risk_escalation_date_delta = pos (24 * hour)

abbrev pub kind_new : Str
kind_new = bytes "new"

abbrev pub kind_escalated : Str
kind_escalated = bytes "escalated"

abbrev pub kind_recovered : Str
kind_recovered = bytes "recovered"

-- The projected date moved earlier by more than a day.
abbrev pub moved_earlier : Option ℤ → Option ℤ → Bool
moved_earlier (some p) (some c) = ltb_ℤ c (p -ℤ risk_escalation_date_delta)
moved_earlier _ _ = false

abbrev show_date : Option ℤ → Str
show_date none = []
show_date (some t) = format_date t

module _ {F : Type 0} where
  -- The loops that index risks by their key; a later one replaces an earlier one.
  unfoldable pub index_risks :
      Dict (PvcRiskSummary F) → List (PvcRiskSummary F) → Dict (PvcRiskSummary F)
  index_risks m [] = m
  index_risks m (r ∷ rs) = index_risks (insert (key_of r.namespace r.name) r m) rs

  abbrev pub by_key : List (PvcRiskSummary F) → Dict (PvcRiskSummary F)
  by_key = index_risks []

  unfoldable pub change_less : PvcRiskChange F → PvcRiskChange F → Bool
  change_less a b =
      if str_eq a.change_type b.change_type
      then (if str_eq a.namespace b.namespace
          then str_lt a.name b.name
          else str_lt a.namespace b.namespace)
      else str_lt a.change_type b.change_type

module _ {F : Type 0} ⦃float : Float64 F⦄ where
  open float use {lt, mul, div, lit, of_int, fixed}

  -- `prev.Weekly > 0 && curr.Weekly > prev.Weekly * riskEscalationGrowthFactor`.
  abbrev pub grew_faster : F → F → Bool
  grew_faster prev curr = lt nought prev && lt (mul prev (lit 120 100)) curr

  unfoldable pub is_escalated_risk : PvcRiskSummary F → PvcRiskSummary F → Bool
  is_escalated_risk prev curr =
      if grew_faster prev.weekly_growth_bytes_per_day curr.weekly_growth_bytes_per_day
      then true
      else (if moved_earlier prev.projected_full_at curr.projected_full_at
          then true
          else not prev.alert_firing && curr.alert_firing)

  abbrev gib : F → Str
  gib x = fixed 2 (div x (of_int (pos (1024 * 1024 * 1024))))

  unfoldable pub escalated_risk_message : PvcRiskSummary F → PvcRiskSummary F → Str
  escalated_risk_message prev curr =
      if moved_earlier prev.projected_full_at curr.projected_full_at
      then (bytes "Projected full date moved earlier from "
          ++ (show_date prev.projected_full_at
              ++ (bytes " to " ++ show_date curr.projected_full_at)))
      else (if grew_faster prev.weekly_growth_bytes_per_day curr.weekly_growth_bytes_per_day
          then (bytes "Weekly growth increased from "
              ++ (gib prev.weekly_growth_bytes_per_day
                  ++ (bytes " to " ++ (gib curr.weekly_growth_bytes_per_day ++ bytes " GiB/day"))))
          else bytes "PVC moved into alert-firing state")

  abbrev pub new_change : ℤ → PvcRiskSummary F → PvcRiskChange F
  new_change now curr = record {
    change_type = kind_new;
    namespace = curr.namespace;
    name = curr.name;
    previous_weekly_growth_bytes_per_day = nought;
    current_weekly_growth_bytes_per_day = curr.weekly_growth_bytes_per_day;
    previous_projected_full_at = none;
    current_projected_full_at = curr.projected_full_at;
    message = bytes "PVC entered top risk set";
    time = now;
  }

  abbrev pub escalated_change : ℤ → PvcRiskSummary F → PvcRiskSummary F → PvcRiskChange F
  escalated_change now prev curr = record {
    change_type = kind_escalated;
    namespace = curr.namespace;
    name = curr.name;
    previous_weekly_growth_bytes_per_day = prev.weekly_growth_bytes_per_day;
    current_weekly_growth_bytes_per_day = curr.weekly_growth_bytes_per_day;
    previous_projected_full_at = prev.projected_full_at;
    current_projected_full_at = curr.projected_full_at;
    message = escalated_risk_message prev curr;
    time = now;
  }

  abbrev pub recovered_change : ℤ → PvcRiskSummary F → PvcRiskChange F
  recovered_change now prev = record {
    change_type = kind_recovered;
    namespace = prev.namespace;
    name = prev.name;
    previous_weekly_growth_bytes_per_day = prev.weekly_growth_bytes_per_day;
    current_weekly_growth_bytes_per_day = nought;
    previous_projected_full_at = prev.projected_full_at;
    current_projected_full_at = none;
    message = bytes "PVC dropped out of top risk set";
    time = now;
  }

  -- What the body of the first loop appends for a current risk, by its previous state.
  unfoldable pub arrival : ℤ → Option (PvcRiskSummary F) → PvcRiskSummary F → List (PvcRiskChange F)
  arrival now none curr = new_change now curr ∷ []
  arrival now (some prev) curr =
      if is_escalated_risk prev curr then escalated_change now prev curr ∷ [] else []

  unfoldable pub departure :
      ℤ → Option (PvcRiskSummary F) → PvcRiskSummary F → List (PvcRiskChange F)
  departure now (some curr) prev = []
  departure now none prev = recovered_change now prev ∷ []

  unfoldable pub arrivals :
      ℤ → Dict (PvcRiskSummary F) → Dict (PvcRiskSummary F) → List (PvcRiskChange F)
  arrivals now prev [] = []
  arrivals now prev ((key, curr) ∷ m) = arrival now (lookup key prev) curr ++ arrivals now prev m

  unfoldable pub departures :
      ℤ → Dict (PvcRiskSummary F) → Dict (PvcRiskSummary F) → List (PvcRiskChange F)
  departures now curr [] = []
  departures now curr ((key, prev) ∷ m) =
      departure now (lookup key curr) prev ++ departures now curr m

  unfoldable pub detect_risk_changes :
      ℤ → List (PvcRiskSummary F) → List (PvcRiskSummary F) → List (PvcRiskChange F)
  detect_risk_changes now previous current = sort_slice change_less (
      arrivals now (by_key previous) (by_key current)
      ++ departures now (by_key current) (by_key previous))

-- The `switch` of `summarizeRiskChanges`, for one kind.
unfoldable pub count_kind : {F : Type 0} → Str → List (PvcRiskChange F) → ℕ
count_kind kind [] = 0
count_kind kind (c ∷ cs) =
    let rest = count_kind kind cs in if str_eq c.change_type kind then suc rest else rest

unfoldable pub summarize_risk_changes : {F : Type 0} → List (PvcRiskChange F) → Str
unfolding count_kind
summarize_risk_changes [] = bytes "No risk changes detected."
summarize_risk_changes (c ∷ cs) =
    let changes = c ∷ cs in
    bytes "Risk changes: new="
    ++ (itoa (count_kind kind_new changes)
        ++ (bytes " escalated="
            ++ (itoa (count_kind kind_escalated changes)
                ++ (bytes " recovered=" ++ itoa (count_kind kind_recovered changes)))))
