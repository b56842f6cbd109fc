-- ===== src/Plan/Signals.antt =====
-- The risk signal of each volume, from its summary and its samples: buildPVCRiskSignals and below in
-- internal/controller/capacityplan_controller.go.
use capacity_planning_operat.Prelude.{
  ℕ, ◌*◌, Bool, ◌||◌, not, List, [], ◌∷◌, Option, none, some, ltb, if◌then◌else◌, length, select,
}
use capacity_planning_operat.Prelude.Int.{ℤ, pos, ◌+ℤ◌, ◌-ℤ◌, ltb_ℤ, leb_ℤ, sub64}
use capacity_planning_operat.Prelude.Text.{Str, trim_space}
use capacity_planning_operat.Prelude.Dict.{Dict, lookup}
use capacity_planning_operat.Prelude.Float.{Float64, nought}
use capacity_planning_operat.Analysis.RingBuffer.{Sample}
use capacity_planning_operat.Analysis.Growth.{GrowthResult, calculate_growth}
use capacity_planning_operat.Api.{PvcSummary}
use capacity_planning_operat.Metrics.{key_of}

abbrev pub hour : ℕ
hour = 3_600_000_000_000

abbrev pub risk_trend_window : ℤ
risk_trend_window = pos (7 * 24 * hour)

abbrev pub risk_acceleration_window : ℤ
risk_acceleration_window = pos (24 * hour)

pub record PvcRiskSignal (F : Type 0) : Type 0 where
  pub namespace : Str
  pub name : Str
  pub used_bytes : ℤ
  pub capacity_bytes : ℤ
  pub usage_ratio : F
  pub alert_firing : Bool
  pub confidence_r2 : F
  pub llm_insight : Str
  pub weekly_growth_bytes_per_day : F
  pub daily_growth_bytes_per_day : F
  pub growth_acceleration : F
  pub days_until_full : Option F
  pub projected_full_at : Option ℤ

unfoldable pub samples_since : List Sample → ℤ → List Sample
samples_since samples since = select (λ s. not (ltb_ℤ s.timestamp since)) samples

module _ {F : Type 0} ⦃float : Float64 F⦄ where
  open float use {of_int, sub, mul, div, abs, le, eq, lit, to_int}

  unfoldable pub growth_acceleration : F → F → F
  growth_acceleration weekly daily =
      if eq weekly nought then nought else div (sub daily weekly) (abs weekly)

  -- `time.Duration(days * 24 * float64(time.Hour))`.
  abbrev pub days_ahead : ℤ → F → ℤ
  days_ahead now days = now +ℤ to_int (mul (mul days (lit 24 1)) (of_int (pos hour)))

  unfoldable pub projected_full_from_growth : ℤ → ℤ → ℤ → F → Option F × Option ℤ
  projected_full_from_growth now used capacity growth =
      let remaining = of_int (sub64 capacity used) in
      let days = div remaining growth in
      if le growth nought || leb_ℤ capacity (pos 0)
      then (none, none)
      else (if le remaining nought
          then (some nought, some now)
          else (some days, some (days_ahead now days)))

  -- The growth and the confidence over the last week, or over all samples where that has fewer than
  -- two, or those of the summary where there are fewer than two at all.
  weekly_trend : ℤ → PvcSummary F → List Sample → F × F
  weekly_trend now s samples =
      let week = samples_since samples (now -ℤ risk_trend_window) in
      let used = if ltb (length week) 2 then samples else week in
      let weekly : GrowthResult F = calculate_growth used s.capacity_bytes in
      if ltb (length used) 2
      then (s.growth_bytes_per_day, s.confidence_r2)
      else (weekly.growth_bytes_per_day, weekly.confidence_r2)

  daily_trend : ℤ → PvcSummary F → List Sample → F → F
  daily_trend now s samples weekly =
      let day = samples_since samples (now -ℤ risk_acceleration_window) in
      let daily : GrowthResult F = calculate_growth day s.capacity_bytes in
      if ltb (length day) 2 then weekly else daily.growth_bytes_per_day

  unfoldable pub build_pvc_risk_signal : ℤ → PvcSummary F → List Sample → PvcRiskSignal F
  unfolding weekly_trend daily_trend
  build_pvc_risk_signal now s samples =
      let (weekly, r2) = weekly_trend now s samples in
      let daily = daily_trend now s samples weekly in
      let (days, at) = projected_full_from_growth now s.used_bytes s.capacity_bytes weekly in
      record {
        namespace = s.namespace;
        name = s.name;
        used_bytes = s.used_bytes;
        capacity_bytes = s.capacity_bytes;
        usage_ratio = s.usage_ratio;
        alert_firing = s.alert_firing;
        confidence_r2 = r2;
        llm_insight = trim_space s.llm_insight;
        weekly_growth_bytes_per_day = weekly;
        daily_growth_bytes_per_day = daily;
        growth_acceleration = growth_acceleration weekly daily;
        days_until_full = days;
        projected_full_at = at;
      }

  -- A key without a snapshot has no samples.
  unfoldable pub build_pvc_risk_signals :
      ℤ → List (PvcSummary F) → Dict (List Sample) → List (PvcRiskSignal F)
  build_pvc_risk_signals now [] snapshots = []
  build_pvc_risk_signals now (s ∷ ss) snapshots =
      let samples : List Sample = elim (lookup (key_of s.namespace s.name) snapshots) [
        | some xs ↦ xs
        | none ↦ []
      ] in
      build_pvc_risk_signal now s samples ∷ build_pvc_risk_signals now ss snapshots
