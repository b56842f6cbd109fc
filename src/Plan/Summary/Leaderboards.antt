-- ===== src/Plan/Summary/Leaderboards.antt =====
-- What the leaderboards of a plan's status show.
use capacity_planning_operat.Prelude.{
  ℕ, ◌≡◌, refl, Bool, List, [], ◌∷◌, Option, none, some, arith, All, length, map, select, take,
  drop, is_some,
}
use capacity_planning_operat.Prelude.Int.{ℤ}
use capacity_planning_operat.Prelude.Text.{str_eq, str_lt}
use capacity_planning_operat.Prelude.Sort.{
  IsOrder, IsTop, IsTop-same, take-IsTop, select-All, sort_slice,
}
use capacity_planning_operat.Prelude.Lex.{
  lex-IsOrder, flip-IsWeakOrder, float-IsWeakOrder, by_key-IsOrder, by_first_difference,
}
use capacity_planning_operat.Prelude.Float.{Float64, IsNumber, IsOrdered, nought}
use capacity_planning_operat.Api.{PvcSummary, PvcSummaryBrief}
use capacity_planning_operat.Plan.TopRisks.{top_n}
use capacity_planning_operat.Plan.TopRisks.Ranking.{places}
use capacity_planning_operat.Plan.Summary.{
  to_brief, count_alerting, has_days, usage_less, soonest_less, growth_less, days_of, grows,
  build_status_summary,
}

module _ {F : Type 0} ⦃float : Float64 F⦄ where
  open float use {eq, lt}

  -- The three rankings; ties go by the namespace, then by the name.
  abbrev pub fuller : PvcSummary F → PvcSummary F → Bool
  fuller a b =
      by_first_difference
        ((eq a.usage_ratio b.usage_ratio, lt b.usage_ratio a.usage_ratio)
          ∷ (str_eq a.namespace b.namespace, str_lt a.namespace b.namespace)
          ∷ [])
        (str_lt a.name b.name)

  -- Both have a number of days.
  abbrev predicted_days : Option F → F
  predicted_days none = nought
  predicted_days (some d) = d

  abbrev pub sooner : PvcSummary F → PvcSummary F → Bool
  sooner a b =
      by_first_difference
        ((
          eq (predicted_days a.days_until_full) (predicted_days b.days_until_full),
          lt (predicted_days a.days_until_full) (predicted_days b.days_until_full),
        )
          ∷ (str_eq a.namespace b.namespace, str_lt a.namespace b.namespace)
          ∷ [])
        (str_lt a.name b.name)

  abbrev pub faster : PvcSummary F → PvcSummary F → Bool
  faster a b =
      by_first_difference
        ((
          eq a.growth_bytes_per_day b.growth_bytes_per_day,
          lt b.growth_bytes_per_day a.growth_bytes_per_day,
        )
          ∷ (str_eq a.namespace b.namespace, str_lt a.namespace b.namespace)
          ∷ [])
        (str_lt a.name b.name)

  -- The numbers that the leaderboards compare are numbers.
  abbrev pub IsComparable : PvcSummary F → Type 0
  IsComparable s = IsNumber s.usage_ratio × IsNumber (days_of s) × IsNumber s.growth_bytes_per_day

  -- The board shows the briefs of the top of the ranking of `items`, and leaves out the rest.
  abbrev pub Shows :
      (PvcSummary F → PvcSummary F → Bool)
      → ℕ
      → List (PvcSummary F)
      → List (PvcSummaryBrief F)
      → Type 0
  Shows less n items board =
      (top : List (PvcSummary F)) × (rest : List (PvcSummary F)) × (board ≡ map to_brief top)
      × IsTop less n items top rest

  module _ (laws : IsOrdered F) where
    usage_less-IsOrder : IsOrder (usage_less {F = F}) IsComparable
    unfolding usage_less
    usage_less-IsOrder =
        lex-IsOrder IsComparable (λ s. s.usage_ratio) (λ s p. p.0)
          (flip-IsWeakOrder (float-IsWeakOrder laws))
          (by_key-IsOrder IsComparable (λ s. s.namespace) (λ s. s.name))

    soonest_less-IsOrder : IsOrder (soonest_less {F = F}) IsComparable
    unfolding soonest_less
    soonest_less-IsOrder =
        lex-IsOrder IsComparable days_of (λ s p. p.1) (float-IsWeakOrder laws)
          (by_key-IsOrder IsComparable (λ s. s.namespace) (λ s. s.name))

    growth_less-IsOrder : IsOrder (growth_less {F = F}) IsComparable
    unfolding growth_less
    growth_less-IsOrder =
        lex-IsOrder IsComparable (λ s. s.growth_bytes_per_day) (λ s p. p.2)
          (flip-IsWeakOrder (float-IsWeakOrder laws))
          (by_key-IsOrder IsComparable (λ s. s.namespace) (λ s. s.name))

    usage_less-fuller : (a b : PvcSummary F) → usage_less a b ≡ fuller a b
    unfolding usage_less
    usage_less-fuller a b = refl

    growth_less-faster : (a b : PvcSummary F) → growth_less a b ≡ faster a b
    unfolding growth_less
    growth_less-faster a b = refl

    days_of-predicted_days : (a : PvcSummary F) → days_of a ≡ predicted_days a.days_until_full
    days_of-predicted_days a = by_option a.days_until_full
      where
        by_option : (o : Option F) → (elim o [ some d ↦ d | none ↦ nought ]) ≡ predicted_days o
        by_option none = refl
        by_option (some d) = refl

    soonest_less-sooner : (a b : PvcSummary F) → soonest_less a b ≡ sooner a b
    unfolding soonest_less
    soonest_less-sooner a b = rw (days_of-predicted_days a, days_of-predicted_days b) refl

    board-Shows :
        (less : PvcSummary F → PvcSummary F → Bool) (before : PvcSummary F → PvcSummary F → Bool)
        (n : ℕ) (items : List (PvcSummary F))
        → ((a b : PvcSummary F) → less a b ≡ before a b)
        → IsOrder less IsComparable
        → All IsComparable items
        → Shows before n items (map to_brief (take n (sort_slice less items)))
    board-Shows less before n items same order h = (
      take n (sort_slice less items),
      drop n (sort_slice less items),
      refl,
      IsTop-same less before same (take-IsTop less IsComparable n items order h),
    )

    -- Where `<` orders the numbers and the compared values are numbers, a status has three
    -- leaderboards: all volumes by falling usage ratio, those with a
    -- prediction by rising days left, and those of positive growth by falling growth; ties go by
    -- namespace and name. Each shows the first of its ranking, as many as asked for or 3.
    pub build_status_summary-Shows :
        (items : List (PvcSummary F)) (n : ℤ)
        → All IsComparable items
        → let out = build_status_summary items n in
          Shows fuller (places n) items out.top_by_usage
          × Shows sooner
              (places n)
              (select (λ s. is_some s.days_until_full) items)
              out.top_by_soonest_to_full
          × Shows faster
              (places n)
              (select (λ s. lt nought s.growth_bytes_per_day) items)
              out.top_by_growth
    unfolding build_status_summary
    build_status_summary-Shows items n h = (
      board-Shows usage_less fuller (top_n n) items usage_less-fuller usage_less-IsOrder h,
      board-Shows soonest_less sooner (top_n n) (select has_days items) soonest_less-sooner
          soonest_less-IsOrder (select-All IsComparable has_days items h),
      board-Shows growth_less faster (top_n n) (select grows items) growth_less-faster
          growth_less-IsOrder (select-All IsComparable grows items h),
    )

  count_alerting-select :
      (items : List (PvcSummary F))
      → count_alerting items ≡ length (select (λ s. s.alert_firing) items)
  unfolding count_alerting
  count_alerting-select [] = refl
  count_alerting-select (s ∷ ss) = ground (arith, count_alerting-select ss)

  -- The counts are those of all volumes and of the alerting ones.
  pub build_status_summary_counts :
      (items : List (PvcSummary F)) (n : ℤ)
      → let out = build_status_summary items n in
        (out.total_pvcs ≡ length items)
        × (out.alerting_pvcs ≡ length (select (λ s. s.alert_firing) items))
  unfolding build_status_summary
  build_status_summary_counts items n = (refl, count_alerting-select items)
