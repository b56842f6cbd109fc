-- ===== src/Analysis/Growth/Bounds.antt =====
-- What holds of a regression whatever the samples are.
use capacity_planning_operat.Prelude.{
  ◌<◌, ◌≡◌, ◌&&◌, inl, inr, false, List, [], ◌∷◌, some, is_some, arith, length, Bool-cases, ltb,
}
use capacity_planning_operat.Prelude.Int.{ℤ, pos, ltb_ℤ}
use capacity_planning_operat.Prelude.Float.{Float64, nought, NotBelowZero, HasSigns}
use capacity_planning_operat.Analysis.RingBuffer.{Sample}
use capacity_planning_operat.Analysis.Growth.{
  GrowthResult, no_growth, calculate_growth, days_to_fill, squares, r_squared, fit, Sums,
  first_unix, last_sample,
}

module _ {F : Type 0} ⦃float : Float64 F⦄ where
  open float use {of_int, lit, add, sub, mul, div, lt, le, eq}

  -- With fewer than two samples there is no regression: the result is the zero value.
  pub calculate_growth_few :
      (samples : List Sample) (capacity : ℤ)
      → length samples < 2
      → calculate_growth {F = F} samples capacity ≡ no_growth
  unfolding calculate_growth
  calculate_growth_few samples capacity h = ground arith

  -- A prediction is made exactly for a growing volume of known capacity.
  abbrev pub Predicts : GrowthResult F → ℤ → Type 0
  Predicts g capacity =
      is_some g.days_until_full ≡ (lt nought g.growth_bytes_per_day && ltb_ℤ (pos 0) capacity)

  module _ (laws : HasSigns F) where
    open laws use {add_sign, square_sign, div_sign, sub_le, zero_sign, not_below}

    squares_signs :
        (t0 : ℤ) (slope intercept mean_y : F) (ss : List Sample) (tot res : F)
        → NotBelowZero tot
        → NotBelowZero res
        → let sums = squares t0 slope intercept mean_y tot res ss in
          NotBelowZero sums.0 × NotBelowZero sums.1
    unfolding squares
    squares_signs t0 slope intercept mean_y [] tot res p q = (p, q)
    squares_signs t0 slope intercept mean_y (s ∷ ss) tot res p q =
        squares_signs t0 slope intercept mean_y ss _ _ (add_sign tot _ p (square_sign _))
          (add_sign res _ q (square_sign _))

    r_squared_le :
        (tot res : F)
        → lt (lit 1 1) nought ≡ false
        → NotBelowZero res
        → lt (lit 1 1) (r_squared tot res) ≡ false
    unfolding r_squared
    r_squared_le tot res one q = elim (Bool-cases (lt nought tot)) [
      | inl e ↦ rw e (sub_le (lit 1 1) (div res tot) (div_sign res tot q e))
      | inr e ↦ rw e one
    ]

    fit_le_one :
        (samples : List Sample) (capacity : ℤ) (a : Sums F)
        → lt (lit 1 1) nought ≡ false
        → lt (lit 1 1) (fit samples capacity a).confidence_r2 ≡ false
    unfolding fit
    fit_le_one samples capacity a one =
        let fn = of_int (pos (length samples)) in
        let denom = sub (mul fn a.sum_x2) (mul a.sum_x a.sum_x) in
        let slope = div (sub (mul fn a.sum_xy) (mul a.sum_x a.sum_y)) denom in
        let intercept = div (sub a.sum_y (mul slope a.sum_x)) fn in
        let mean_y = div a.sum_y fn in
        elim (Bool-cases (eq denom nought)) [
          | inl e ↦ rw e one
          | inr e ↦ rw e (
              r_squared_le _ _ one
                (squares_signs (first_unix samples) slope intercept mean_y samples nought nought
                  zero_sign zero_sign).1)
        ]

    -- With the laws of signs, and where 1 is not below 0, the confidence is never above 1.
    pub confidence_le_one :
        (samples : List Sample) (capacity : ℤ)
        → lt (lit 1 1) nought ≡ false
        → lt (lit 1 1) (calculate_growth samples capacity).confidence_r2 ≡ false
    unfolding calculate_growth
    confidence_le_one samples capacity one = elim (Bool-cases (ltb (length samples) 2)) [
      | inl e ↦ rw e one
      | inr e ↦ rw e (fit_le_one samples capacity _ one)
    ]

    fit-Predicts :
        (samples : List Sample) (capacity : ℤ) (a : Sums F)
        → Predicts (fit samples capacity a) capacity
    unfolding fit days_to_fill
    fit-Predicts samples capacity a = ground (arith, zero_sign)

    -- With the laws of signs, a number of days is predicted exactly for a volume whose capacity and
    -- whose growth are above zero.
    pub calculate_growth-Predicts :
        (samples : List Sample) (capacity : ℤ)
        → Predicts (calculate_growth samples capacity) capacity
    unfolding calculate_growth
    calculate_growth-Predicts samples capacity = elim (Bool-cases (ltb (length samples) 2)) [
      | inl e ↦ rw e (ground (arith, zero_sign))
      | inr e ↦ rw e (fit-Predicts samples capacity _)
    ]

    days_to_fill_sign :
        (slope : F) (capacity used : ℤ) {d : F}
        → days_to_fill slope capacity used ≡ some d
        → NotBelowZero d
    unfolding days_to_fill
    days_to_fill_sign slope capacity used e =
        let remaining = sub (of_int capacity) (of_int used) in
        ground (arith, zero_sign, not_below remaining, div_sign remaining slope)

    fit_days_sign :
        (samples : List Sample) (capacity : ℤ) (a : Sums F) {d : F}
        → (fit samples capacity a).days_until_full ≡ some d
        → NotBelowZero d
    unfolding fit
    fit_days_sign samples capacity a e =
        let fn = of_int (pos (length samples)) in
        let denom = sub (mul fn a.sum_x2) (mul a.sum_x a.sum_x) in
        elim (Bool-cases (eq denom nought)) [
          | inl b ↦ cc (rw b at e)
          | inr b ↦ days_to_fill_sign _ capacity (last_sample samples).used_bytes (rw b at e)
        ]

    -- With the laws of signs, a predicted number of days is not below zero.
    pub days-NotBelowZero :
        (samples : List Sample) (capacity : ℤ) {d : F}
        → (calculate_growth samples capacity).days_until_full ≡ some d
        → NotBelowZero d
    unfolding calculate_growth
    days-NotBelowZero samples capacity e = elim (Bool-cases (ltb (length samples) 2)) [
      | inl b ↦ cc (rw b at e)
      | inr b ↦ fit_days_sign samples capacity _ (rw b at e)
    ]
