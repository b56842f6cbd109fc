-- ===== src/Analysis/Growth.antt =====
-- internal/analysis/growth.go: least squares over the samples of a volume. Arithmetic on float64 is
-- the parameter's, in the order in which the code does it.
pub mod Bounds
use capacity_planning_operat.Prelude.{
  ℕ, zero, suc, ◌*◌, Bool, true, false, ◌&&◌, List, [], ◌∷◌, Option, none, some, ltb, ◌==◌,
  if◌then◌else◌, length, get_last?,
}
use capacity_planning_operat.Prelude.Int.{ℤ, pos, ltb_ℤ, sub64, floor_div}
use capacity_planning_operat.Prelude.Float.{Float64, nought}
use capacity_planning_operat.Analysis.RingBuffer.{Sample, zero_sample}

pub record GrowthResult (F : Type 0) : Type 0 where
  pub growth_bytes_per_day : F
  pub days_until_full : Option F
  pub confidence_r2 : F

-- The sums of the first loop.
pub record Sums (F : Type 0) : Type 0 where
  pub sum_x : F
  pub sum_y : F
  pub sum_xy : F
  pub sum_x2 : F

-- `Timestamp.Unix()`.
abbrev pub unix : ℤ → ℤ
unix t = floor_div t 1_000_000_000

-- The last sample; the callers have at least two.
abbrev pub last_sample : List Sample → Sample
last_sample xs = elim (get_last? xs) [ some s ↦ s | none ↦ zero_sample ]

abbrev pub first_unix : List Sample → ℤ
first_unix [] = pos 0
first_unix (s ∷ ss) = unix s.timestamp

module _ {F : Type 0} ⦃float : Float64 F⦄ where
  open float use {of_int, lit, add, sub, mul, div, lt, le, eq}

  -- `GrowthResult{}`.
  abbrev pub no_growth : GrowthResult F
  no_growth = record {
    growth_bytes_per_day = nought;
    days_until_full = none;
    confidence_r2 = nought;
  }

  -- Days since the first sample.
  pub x_of : ℤ → Sample → F
  x_of t0 s = div (of_int (sub64 (unix s.timestamp) t0)) (lit 86400 1)

  -- The first loop.
  pub accumulate : ℤ → Sums F → List Sample → Sums F
  accumulate t0 a [] = a
  accumulate t0 a (s ∷ ss) =
      let x = x_of t0 s in
      let y = of_int s.used_bytes in
      let next : Sums F = record {
        sum_x = add a.sum_x x;
        sum_y = add a.sum_y y;
        sum_xy = add a.sum_xy (mul x y);
        sum_x2 = add a.sum_x2 (mul x x);
      } in
      accumulate t0 next ss

  -- The second loop: the total and the residual sum of squares.
  pub squares : ℤ → F → F → F → F → F → List Sample → F × F
  squares t0 slope intercept mean_y tot res [] = (tot, res)
  squares t0 slope intercept mean_y tot res (s ∷ ss) =
      let y_hat = add (mul slope (x_of t0 s)) intercept in
      let y = of_int s.used_bytes in
      squares t0 slope intercept mean_y (add tot (mul (sub y mean_y) (sub y mean_y)))
        (add res (mul (sub y y_hat) (sub y y_hat))) ss

  pub r_squared : F → F → F
  r_squared tot res = if lt nought tot then sub (lit 1 1) (div res tot) else nought

  -- The prediction at the end of the function.
  unfoldable pub days_to_fill : F → ℤ → ℤ → Option F
  days_to_fill slope capacity_bytes last_used =
      let remaining = sub (of_int capacity_bytes) (of_int last_used) in
      if lt nought slope && ltb_ℤ (pos 0) capacity_bytes
      then (if le remaining nought then some nought else some (div remaining slope))
      else none

  pub fit : List Sample → ℤ → Sums F → GrowthResult F
  fit samples capacity_bytes a =
      let t0 = first_unix samples in
      let fn = of_int (pos (length samples)) in
      let denom = sub (mul fn a.sum_x2) (mul a.sum_x a.sum_x) in
      let slope = div (sub (mul fn a.sum_xy) (mul a.sum_x a.sum_y)) denom in
      let intercept = div (sub a.sum_y (mul slope a.sum_x)) fn in
      let mean_y = div a.sum_y fn in
      let sums = squares t0 slope intercept mean_y nought nought samples in
      let full : GrowthResult F = record {
        growth_bytes_per_day = slope;
        days_until_full = days_to_fill slope capacity_bytes (last_sample samples).used_bytes;
        confidence_r2 = r_squared sums.0 sums.1;
      } in
      if eq denom nought then no_growth else full

  unfoldable pub calculate_growth : List Sample → ℤ → GrowthResult F
  unfolding fit accumulate squares r_squared days_to_fill x_of
  calculate_growth samples capacity_bytes =
      let start : Sums F = record {
        sum_x = nought;
        sum_y = nought;
        sum_xy = nought;
        sum_x2 = nought;
      } in
      let result = fit samples capacity_bytes (accumulate (first_unix samples) start samples) in
      if ltb (length samples) 2 then no_growth else result
