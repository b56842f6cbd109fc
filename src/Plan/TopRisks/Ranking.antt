-- ===== src/Plan/TopRisks/Ranking.antt =====
-- What the list of top risks holds, and in which order.
use capacity_planning_operat.Prelude.{
  ℕ, ◌≡◌, refl, Bool, List, [], ◌∷◌, Option, none, some, All, take, drop, map, select,
  if◌then◌else◌,
}
use capacity_planning_operat.Prelude.Int.{ℤ, pos, leb_ℤ, pos_part}
use capacity_planning_operat.Prelude.Text.{str_eq, str_lt}
use capacity_planning_operat.Prelude.Sort.{IsOrder, IsTop, IsTop-same, take-IsTop, select-All}
use capacity_planning_operat.Prelude.Lex.{
  lex-IsOrder, flip-IsWeakOrder, float-IsWeakOrder, by_key-IsOrder, by_first_difference,
}
use capacity_planning_operat.Prelude.Float.{Float64, IsNumber, IsOrdered, nought}
use capacity_planning_operat.Plan.Signals.{PvcRiskSignal}
use capacity_planning_operat.Plan.TopRisks.{
  top_n, risk_less, days_or_max, growing, ranked_risks, to_risk_summary, build_top_risks,
}

-- The number of places: 3 where the plan gives none above zero.
abbrev pub places : ℤ → ℕ
places n = if leb_ℤ n (pos 0) then 3 else pos_part n

module _ {F : Type 0} ⦃float : Float64 F⦄ where
  open float use {eq, lt}

  -- The numbers that the ranking compares are numbers.
  abbrev pub IsComparable : PvcRiskSignal F → Type 0
  IsComparable s = IsNumber s.weekly_growth_bytes_per_day × IsNumber (days_or_max s.days_until_full)

  -- The greatest float64 where no date is predicted.
  abbrev pub days_left : Option F → F
  days_left none = float.max_float
  days_left (some d) = d

  -- The ranking: falling weekly growth, then rising days left, then the namespace, then the name.
  abbrev pub ranks_before : PvcRiskSignal F → PvcRiskSignal F → Bool
  ranks_before a b =
      by_first_difference
        ((
          eq a.weekly_growth_bytes_per_day b.weekly_growth_bytes_per_day,
          lt b.weekly_growth_bytes_per_day a.weekly_growth_bytes_per_day,
        )
          ∷ (
            eq (days_left a.days_until_full) (days_left b.days_until_full),
            lt (days_left a.days_until_full) (days_left b.days_until_full),
          )
          ∷ (str_eq a.namespace b.namespace, str_lt a.namespace b.namespace)
          ∷ [])
        (str_lt a.name b.name)

  pub days_or_max-days_left : (o : Option F) → days_or_max o ≡ days_left o
  days_or_max-days_left none = refl
  days_or_max-days_left (some d) = refl

  risk_less-ranks_before : (a b : PvcRiskSignal F) → risk_less a b ≡ ranks_before a b
  unfolding risk_less
  risk_less-ranks_before a b =
      rw (days_or_max-days_left a.days_until_full, days_or_max-days_left b.days_until_full) refl

  pub risk_less-IsOrder : IsOrdered F → IsOrder (risk_less {F = F}) IsComparable
  unfolding risk_less
  risk_less-IsOrder laws =
      lex-IsOrder IsComparable (λ s. s.weekly_growth_bytes_per_day) (λ s p. p.0)
        (flip-IsWeakOrder (float-IsWeakOrder laws))
        (lex-IsOrder IsComparable (λ s. days_or_max s.days_until_full) (λ s p. p.1)
          (float-IsWeakOrder laws) (by_key-IsOrder IsComparable (λ s. s.namespace) (λ s. s.name)))

  -- Where `<` orders the numbers and the compared values are numbers, the top risks are the first of the
  -- volumes that grow, as many as asked for or 3, ranked by falling weekly growth, then by the days
  -- left (no prediction counting as the greatest float64), then by namespace and name: `top` is what
  -- the list shows and `rest` what it leaves out.
  pub build_top_risks-IsTop :
      IsOrdered F
      → (signals : List (PvcRiskSignal F)) (n : ℤ) → All IsComparable signals
      → (top : List (PvcRiskSignal F)) × (rest : List (PvcRiskSignal F)) × (build_top_risks signals
            n
          ≡ map to_risk_summary top)
        × IsTop ranks_before
            (places n)
            (select (λ s. lt nought s.weekly_growth_bytes_per_day) signals)
            top
            rest
  unfolding build_top_risks ranked_risks
  build_top_risks-IsTop laws signals n h = (
    take (top_n n) (ranked_risks signals),
    drop (top_n n) (ranked_risks signals),
    refl,
    IsTop-same risk_less ranks_before risk_less-ranks_before (
        take-IsTop risk_less IsComparable (top_n n) (select growing signals)
          (risk_less-IsOrder laws) (select-All IsComparable growing signals h)),
  )
