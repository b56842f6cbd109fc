-- ===== src/Plan/Budget/Forecasts.antt =====
-- What the budget forecasts say.
use capacity_planning_operat.Prelude.{
  ℕ, ◌+◌, ◌≤◌, ◌<◌, ◌^◌, ◌≡◌, refl, sym, Bool, true, false, ◌||◌, List, [], ◌∷◌, Option, none, some,
  inl, inr, Bool-cases, if◌then◌else◌, All, arith, select, is_some,
}
use mathlib.Core.Option.{some-injective}
use capacity_planning_operat.Prelude.Int.{
  sub64, ℤ, pos, ltb_ℤ, leb_ℤ, pos_part, add64, wrap64, ◌+ℤ◌,
}
use capacity_planning_operat.Prelude.Text.{Str, bytes, is_empty, trim_space}
use capacity_planning_operat.Prelude.Sort.{sort_slice-All}
use capacity_planning_operat.Prelude.Dict.{Dict, lookup}
use capacity_planning_operat.Prelude.Float.{Float64, NotBelowZero, HasSigns, nought}
use capacity_planning_operat.Api.{
  PvcSummary, StorageBudgetForecast, NamespaceBudgetSpec, WorkloadBudgetSpec, BudgetSpec,
}
use capacity_planning_operat.Metrics.{key_of}
use capacity_planning_operat.Plan.Signals.{PvcRiskSignal}
use capacity_planning_operat.Plan.TopRisks.{PvcWorkloadRef}
use capacity_planning_operat.Plan.Budget.{
  growth_of, keep, is_in, belongs_to, tally, forecast, budget_breach_projection, forecast_sort_less,
  forecast_for, namespace_forecast, workload_forecast, namespace_forecasts, workload_forecasts,
  build_budget_forecasts, parse_budget_bytes,
}

-- The used bytes of a list of volumes, without an overflow.
unfoldable pub total_used : {F : Type 0} → List (PvcSummary F) → ℕ
total_used [] = 0
total_used (s ∷ ss) = pos_part s.used_bytes + total_used ss

module _ {F : Type 0} where
  abbrev pub IsUsage : PvcSummary F → Type 0
  IsUsage s = ltb_ℤ s.used_bytes (pos 0) ≡ false

add64_small :
    (n : ℕ) (u : ℤ)
    → ltb_ℤ u (pos 0) ≡ false
    → n + pos_part u < 2 ^ 63
    → add64 (pos n) u ≡ pos (n + pos_part u)
unfolding add64 wrap64 ◌+ℤ◌
add64_small n u h small = ground arith

-- What holds of a result, if there is one.
abbrev pub Each : {A : Type 0} → (A → Type 0) → Option A → Type 0
Each P none = Unit
Each P (some x) = P x

keep-All :
    {A : Type 0} (P : A → Type 0) (x : Option A) (xs : List A)
    → Each P x
    → All P xs
    → All P (keep x xs)
keep-All P none xs h hs = hs
keep-All P (some x) xs h hs = (h, hs)

total_used-select :
    {F : Type 0} (p : PvcSummary F → Bool) (ss : List (PvcSummary F))
    → total_used (select p ss) ≤ total_used ss
unfolding total_used
total_used-select p [] = ground arith
total_used-select p (s ∷ ss) = elim (Bool-cases (p s)) [
  | inl e ↦ rw e (ground (arith, total_used-select p ss))
  | inr e ↦ rw e (ground (arith, total_used-select p ss))
]

module _ {F : Type 0} ⦃float : Float64 F⦄ where
  open float use {le, lt, add, div, of_int}

  -- A budget above zero that is used up is breached now; one that is not is breached in a number of
  -- days that is not below zero, at a known time, or, if nothing grows, never.
  abbrev pub IsForecast : ℤ → StorageBudgetForecast F → Type 0
  IsForecast now f =
      (ltb_ℤ (pos 0) f.budget_bytes ≡ true)
      × (leb_ℤ f.budget_bytes f.used_bytes ≡ true
          → (f.days_until_breach ≡ some nought) × (f.projected_breach_at ≡ some now))
      × (leb_ℤ f.budget_bytes f.used_bytes ≡ false
          → is_some f.days_until_breach
            ≡ (if le f.growth_bytes_per_day nought then false else true))
      × (is_some f.days_until_breach ≡ is_some f.projected_breach_at)
      × ((d : F) → f.days_until_breach ≡ some d → NotBelowZero d)

  abbrev pub in_namespace : Str → Str → Str → PvcSummary F → Bool
  in_namespace namespace kind name = is_in namespace

  -- The forecast is one, and shows the bytes used by the volumes that its scope counts.
  abbrev pub IsSound :
      ℤ
      → List (PvcSummary F)
      → (Str → Str → Str → PvcSummary F → Bool)
      → StorageBudgetForecast F
      → Type 0
  IsSound now summaries counts f =
      IsForecast now f
      × (f.used_bytes ≡ pos (total_used (select (counts f.namespace f.kind f.name) summaries)))

  -- Without an overflow the tally is the sum of what is counted.
  tally-total :
      (counts : PvcSummary F → Bool) (risks : Dict (PvcRiskSignal F)) (ss : List (PvcSummary F))
      (n : ℕ) (g : F)
      → All IsUsage ss
      → n + total_used (select counts ss) < 2 ^ 63
      → (tally counts risks ss (pos n, g)).0 ≡ pos (n + total_used (select counts ss))
  unfolding tally total_used
  tally-total counts risks [] n g h small = ground arith
  tally-total counts risks (s ∷ ss) n g (u, h) small = elim (Bool-cases (counts s)) [
    | inl e ↦
        let step : add64 (pos n) s.used_bytes ≡ pos (n + pos_part s.used_bytes) =
          add64_small n s.used_bytes u (ground (arith, small, e)) in
        let more = add g (growth_of (lookup (key_of s.namespace s.name) risks)) in
        rw (tally, e, step)
          (ground
            (arith, e, small, h, tally-total counts risks ss (n + pos_part s.used_bytes) more))
    | inr e ↦ rw (tally, e) (tally-total counts risks ss n g h (rw e at small))
  ]

  -- What a projection says of a budget above zero.
  abbrev IsProjection : ℤ → ℤ → ℤ → F → Option F × Option ℤ → Type 0
  IsProjection now used budget growth out =
      (leb_ℤ budget used ≡ true → (out.0 ≡ some nought) × (out.1 ≡ some now))
      × (leb_ℤ budget used ≡ false → is_some out.0 ≡ (if le growth nought then false else true))
      × (is_some out.0 ≡ is_some out.1)
      × ((d : F) → out.0 ≡ some d → NotBelowZero d)

  left_sign : HasSigns F → (days : F) → NotBelowZero (if lt days nought then nought else days)
  left_sign laws days = elim (Bool-cases (lt days nought)) [
    | inl e ↦ rw e laws.zero_sign
    | inr e ↦ rw e e
  ]

  some_sign : (x d : F) → NotBelowZero x → some x ≡ some d → NotBelowZero d
  some_sign x d h e = rw (sym (some-injective x d e)) h

  budget_breach_projection-IsProjection :
      HasSigns F
      → (now used budget : ℤ) (growth : F) → leb_ℤ budget (pos 0) ≡ false
      → IsProjection now used budget growth (budget_breach_projection now used budget growth)
  unfolding budget_breach_projection
  budget_breach_projection-IsProjection laws now used budget growth positive =
      elim (Bool-cases (leb_ℤ budget used)) [
        | inl e ↦
            rw (positive, e)
              (λ p. (refl, refl), λ p. absurd (cc), refl, λ d. some_sign nought d laws.zero_sign)
        | inr e ↦ elim (Bool-cases (le growth nought)) [
          | inl g ↦ rw (positive, e, g) (λ p. absurd (cc), λ p. refl, refl, λ d p. absurd (cc))
          | inr g ↦
              let days = div (of_int (sub64 budget used)) growth in
              let left = if lt days nought then nought else days in
              rw (positive, e, g)
                (λ p. absurd (cc), λ p. refl, refl, λ d. some_sign left d (left_sign laws days))
        ]
      ]

  module _ (laws : HasSigns F) (parse_quantity : Str → Option ℤ) (now : ℤ)
      (summaries : List (PvcSummary F)) (risks : Dict (PvcRiskSignal F))
      (usage : All IsUsage summaries) (small : total_used summaries < 2 ^ 63) where
    forecast-IsSound :
        (counts : Str → Str → Str → PvcSummary F → Bool) (scope namespace kind name : Str)
        (budget : ℤ)
        → leb_ℤ budget (pos 0) ≡ false
        → IsSound now summaries counts (
            forecast now scope namespace kind name budget
              (tally (counts namespace kind name) risks summaries (pos 0, nought)))
    unfolding forecast
    forecast-IsSound counts scope namespace kind name budget positive =
        let p = counts namespace kind name in
        let total = tally p risks summaries (pos 0, nought) in
        let (breached, open_ended, timed, signed) =
          budget_breach_projection-IsProjection laws now total.0 budget total.1 positive in
        (
          (ground (arith, positive), breached, open_ended, timed, signed),
          ground (
            arith,
            tally-total p risks summaries 0 nought usage
                (omega (arith, small, total_used-select p summaries)),
          ),
        )

    forecast_for-IsSound :
        (counts : Str → Str → Str → PvcSummary F → Bool) (budget : Option ℤ)
        (scope namespace kind name : Str)
        → Each (IsSound now summaries counts) (
            forecast_for parse_quantity now summaries risks budget scope namespace kind name
              (counts namespace kind name))
    unfolding forecast_for
    forecast_for-IsSound counts none scope namespace kind name = tt
    forecast_for-IsSound counts (some budget) scope namespace kind name =
        elim (Bool-cases (leb_ℤ budget (pos 0))) [
          | inl b ↦ rw b tt
          | inr b ↦ rw b (forecast-IsSound counts scope namespace kind name budget b)
        ]

    namespace_forecasts-IsSound :
        (bs : List NamespaceBudgetSpec)
        → All
            (IsSound now summaries in_namespace)
            (namespace_forecasts parse_quantity now summaries risks bs)
    unfolding namespace_forecasts namespace_forecast
    namespace_forecasts-IsSound [] = tt
    namespace_forecasts-IsSound (b ∷ bs) =
        let ns = trim_space b.namespace in
        let budget = parse_budget_bytes parse_quantity b.budget in
        let f = namespace_forecast parse_quantity now summaries risks b in
        keep-All (IsSound now summaries in_namespace) f
          (namespace_forecasts parse_quantity now summaries risks bs)
          (elim (Bool-cases (is_empty ns)) [
            | inl e ↦ rw e tt
            | inr e ↦ rw e (forecast_for-IsSound in_namespace budget (bytes "namespace") ns [] [])
          ])
          (namespace_forecasts-IsSound bs)

    workload_forecasts-IsSound :
        (workloads : Dict PvcWorkloadRef) (bs : List WorkloadBudgetSpec)
        → All
            (IsSound now summaries (belongs_to workloads))
            (workload_forecasts parse_quantity now summaries risks workloads bs)
    unfolding workload_forecasts workload_forecast
    workload_forecasts-IsSound workloads [] = tt
    workload_forecasts-IsSound workloads (b ∷ bs) =
        let ns = trim_space b.namespace in
        let kind = trim_space b.kind in
        let name = trim_space b.name in
        let budget = parse_budget_bytes parse_quantity b.budget in
        let f = workload_forecast parse_quantity now summaries risks workloads b in
        keep-All (IsSound now summaries (belongs_to workloads)) f
          (workload_forecasts parse_quantity now summaries risks workloads bs)
          (elim (Bool-cases (is_empty ns || is_empty kind || is_empty name)) [
            | inl e ↦ rw e tt
            | inr e ↦
                rw e (
                  forecast_for-IsSound (belongs_to workloads) budget (bytes "workload") ns kind
                    name)
          ])
          (workload_forecasts-IsSound workloads bs)

    -- With the laws of signs, where no volume uses less than nothing and all of them together use less than 2^63 bytes, every
    -- budget forecast is for a budget above zero and shows the exact sum of the bytes used by the
    -- volumes of its namespace, or of its workload. A budget that is used up is breached now, in zero
    -- days; any other has a day and a time of breach exactly if its growth is above zero, and the days
    -- are never below zero.
    pub build_budget_forecasts-IsSound :
        (spec : BudgetSpec) (workloads : Dict PvcWorkloadRef)
        → let out = build_budget_forecasts parse_quantity now summaries risks spec workloads in
          All (IsSound now summaries in_namespace) out.0
          × All (IsSound now summaries (belongs_to workloads)) out.1
    unfolding build_budget_forecasts
    build_budget_forecasts-IsSound spec workloads = (
      sort_slice-All forecast_sort_less (IsSound now summaries in_namespace)
          (namespace_forecasts parse_quantity now summaries risks spec.namespace_budgets)
          (namespace_forecasts-IsSound spec.namespace_budgets),
      sort_slice-All forecast_sort_less (IsSound now summaries (belongs_to workloads))
          (workload_forecasts parse_quantity now summaries risks workloads spec.workload_budgets)
          (workload_forecasts-IsSound workloads spec.workload_budgets),
    )
