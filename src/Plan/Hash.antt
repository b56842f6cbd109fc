-- ===== src/Plan/Hash.antt =====
-- computeRiskSnapshotHash and computeBudgetForecastHash of
-- internal/controller/capacityplan_controller.go: what the plan compares to see whether its risks or its
-- forecasts are new. SHA-256 with its hexadecimal print is a parameter.
pub mod Unordered
use capacity_planning_operat.Prelude.{
  ◌≡◌, refl, ap₂, Bool, true, false, ◌&&◌, true, false, ◌&&◌, List, [], ◌∷◌, ◌++◌, Option, none,
  some, inl, inr, arith, if◌then◌else◌, Bool-cases,
}
use capacity_planning_operat.Prelude.Text.{
  Str, bytes, str_eq, str_lt, str_eq_iff, str_lt_total, str_lt_irrefl,
}
use capacity_planning_operat.Prelude.Int.{ℤ}
use capacity_planning_operat.Prelude.Print.{show_int, show_bool}
use capacity_planning_operat.Prelude.Sort.{sort_slice, IsOrder}
use capacity_planning_operat.Prelude.Canonical.{
  AllPairs, AllPairs-imp, IsComparable, sort_slice_canonical,
}
use capacity_planning_operat.Prelude.Lex.{
  lex-IsOrder, str-IsWeakOrder, by_key-IsOrder, by_name-IsOrder, Anything,
}
use capacity_planning_operat.Prelude.Time.{format_rfc3339}
use capacity_planning_operat.Prelude.Float.{Float64}
use capacity_planning_operat.Api.{PvcRiskSummary, StorageBudgetForecast}

abbrev stamp : Option ℤ → Str
stamp none = []
stamp (some t) = format_rfc3339 t

abbrev pub is_nil {ℓ} : {A : Type ℓ} → List A → Bool
is_nil [] = true
is_nil (x ∷ xs) = false

module _ {F : Type 0} where
  unfoldable pub snapshot_less : PvcRiskSummary F → PvcRiskSummary F → Bool
  snapshot_less a b =
      if str_eq a.namespace b.namespace
      then str_lt a.name b.name
      else str_lt a.namespace b.namespace

  unfoldable pub row_less : StorageBudgetForecast F → StorageBudgetForecast F → Bool
  row_less a b =
      if str_eq a.scope b.scope
      then (if str_eq a.namespace b.namespace
          then (if str_eq a.kind b.kind then str_lt a.name b.name else str_lt a.kind b.kind)
          else str_lt a.namespace b.namespace)
      else str_lt a.scope b.scope

module _ {F : Type 0} ⦃float : Float64 F⦄ where
  open float use {fixed}

  snapshot_line : PvcRiskSummary F → Str
  snapshot_line r =
      r.namespace
      ++ bytes "/"
      ++ r.name
      ++ bytes "|"
      ++ fixed 6 r.weekly_growth_bytes_per_day
      ++ bytes "|"
      ++ fixed 6 r.growth_acceleration
      ++ bytes "|"
      ++ show_bool r.alert_firing
      ++ bytes "|"
      ++ stamp r.projected_full_at
      ++ (b'\n' ∷ [])

  unfoldable pub snapshot_text : List (PvcRiskSummary F) → Str
  unfolding snapshot_line
  snapshot_text [] = []
  snapshot_text (r ∷ rs) = snapshot_line r ++ snapshot_text rs

  unfoldable pub compute_risk_snapshot_hash : (Str → Str) → List (PvcRiskSummary F) → Str
  compute_risk_snapshot_hash sha256_hex [] = []
  compute_risk_snapshot_hash sha256_hex (r ∷ rs) =
      sha256_hex (snapshot_text (sort_slice snapshot_less (r ∷ rs)))

  abbrev days_text : Option F → Str
  days_text none = []
  days_text (some d) = fixed 12 d

  row_line : StorageBudgetForecast F → Str
  row_line row =
      row.scope
      ++ bytes "|"
      ++ row.namespace
      ++ bytes "|"
      ++ row.kind
      ++ bytes "|"
      ++ row.name
      ++ bytes "|"
      ++ show_int row.budget_bytes
      ++ bytes "|"
      ++ show_int row.used_bytes
      ++ bytes "|"
      ++ fixed 6 row.usage_ratio
      ++ bytes "|"
      ++ fixed 6 row.growth_bytes_per_day
      ++ bytes "|"
      ++ days_text row.days_until_breach
      ++ (b'\n' ∷ [])

  unfoldable pub rows_text : List (StorageBudgetForecast F) → Str
  unfolding row_line
  rows_text [] = []
  rows_text (r ∷ rs) = row_line r ++ rows_text rs

  unfoldable pub append_forecasts : List (StorageBudgetForecast F) → Str
  append_forecasts rows = rows_text (sort_slice row_less rows)

  unfoldable pub compute_budget_forecast_hash :
      (Str → Str) → List (StorageBudgetForecast F) → List (StorageBudgetForecast F) → Str
  compute_budget_forecast_hash sha256_hex namespaces workloads =
      if is_nil namespaces && is_nil workloads
      then []
      else sha256_hex (append_forecasts namespaces ++ append_forecasts workloads)
