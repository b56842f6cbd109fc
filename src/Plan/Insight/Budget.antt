-- ===== src/Plan/Insight/Budget.antt =====
-- refreshPlanBudgetRecommendations and fallbackBudgetRecommendations of
-- internal/controller/capacityplan_controller.go: the text on the budgets.
use capacity_planning_operat.Prelude.{
  ◌*◌, ◌≡◌, refl, true, false, ◌||◌, not, List, [], ◌∷◌, ◌++◌, Option, none, if◌then◌else◌, inl,
  inr, Bool-cases, arith,
}
use capacity_planning_operat.Prelude.Int.{ℤ, pos}
use capacity_planning_operat.Prelude.Text.{Str, bytes, is_empty, trim_space, join}
use capacity_planning_operat.Prelude.Float.{Float64}
use capacity_planning_operat.Api.{StorageBudgetForecast}
use capacity_planning_operat.Plan.Insight.{
  Answer, LlmClientState, should_refresh, generate_prompt_insight, refreshed,
}
use capacity_planning_operat.Plan.Insight.Refresh.{refreshed_text}

abbrev last_line : Str
last_line =
    bytes
      "3) Re-evaluate per-workload budgets after next trend window to confirm sustained growth before resizing."

standing_nonempty :
    (s : LlmClientState) (fallback : Str)
    → is_empty fallback ≡ false
    → is_empty (if is_empty (trim_space s.prev_text) then fallback else trim_space s.prev_text)
      ≡ false
standing_nonempty s fallback h = elim (Bool-cases (is_empty (trim_space s.prev_text))) [
  | inl e ↦ rw e h
  | inr e ↦ rw (e, e) refl
]

refreshed_nonempty :
    (s : LlmClientState) (standing : Str) (answer : Answer)
    → is_empty standing ≡ false
    → is_empty
        (if not (should_refresh s) || not s.takes_prompts
          then (standing, s.prev_time)
          else refreshed (generate_prompt_insight answer) standing s).0
      ≡ false
refreshed_nonempty s standing answer h =
    elim (Bool-cases (not (should_refresh s) || not s.takes_prompts)) [
      | inl e ↦ rw e h
      | inr e ↦ rw e (refreshed_text answer standing s h)
    ]

module _ {F : Type 0} ⦃float : Float64 F⦄ where
  open float use {of_int, lit, mul, div, fixed}

  abbrev percent : F → Str
  percent ratio = fixed 1 (mul ratio (lit 100 1))

  abbrev mib_per_minute : F → Str
  mib_per_minute growth = fixed 2 (div (div growth (lit 1440 1)) (of_int (pos (1024 * 1024))))

  workload_line : List (StorageBudgetForecast F) → List Str
  workload_line [] = []
  workload_line (w ∷ ws) =
      (bytes "1) Review workload "
        ++ (w.namespace
            ++ (bytes "/"
                ++ (w.kind
                    ++ (bytes "/"
                        ++ (w.name
                            ++ (bytes " budget drift in the next 24h; current usage is "
                                ++ (percent w.usage_ratio
                                    ++ (bytes "% of budget with growth "
                                        ++ (mib_per_minute w.growth_bytes_per_day
                                            ++ bytes " MiB/min."))))))))))
      ∷ []

  namespace_line : List (StorageBudgetForecast F) → List Str
  namespace_line [] = []
  namespace_line (n ∷ ns) =
      (bytes "2) Validate namespace "
        ++ (n.namespace
            ++ (bytes " budget headroom this week; usage is "
                ++ (percent n.usage_ratio
                    ++ (bytes "% with projected growth "
                        ++ (mib_per_minute n.growth_bytes_per_day ++ bytes " MiB/min."))))))
      ∷ []

  -- At most two lines stand before the last one, so it is always added.
  unfoldable pub fallback_budget_recommendations :
      List (StorageBudgetForecast F) → List (StorageBudgetForecast F) → Str
  unfolding workload_line namespace_line
  fallback_budget_recommendations [] [] = []
  fallback_budget_recommendations ns ws =
      join (bytes " ") (workload_line ws ++ (namespace_line ns ++ (last_line ∷ [])))

  abbrev pub standing_recommendations :
      LlmClientState → List (StorageBudgetForecast F) → List (StorageBudgetForecast F) → Str
  standing_recommendations s ns ws =
      if is_empty (trim_space s.prev_text)
      then fallback_budget_recommendations ns ws
      else trim_space s.prev_text

  -- `answer` is what the client would say to the prompt.
  unfoldable pub refresh_plan_budget_recommendations :
      LlmClientState
      → List (StorageBudgetForecast F)
      → List (StorageBudgetForecast F)
      → Answer
      → Str × Option ℤ
  refresh_plan_budget_recommendations s [] [] answer =
      if not s.is_enabled || not s.has_client
      then (trim_space s.prev_text, s.prev_time)
      else ([], none)
  refresh_plan_budget_recommendations s ns ws answer =
      let standing = standing_recommendations s ns ws in
      if not s.is_enabled || not s.has_client
      then (trim_space s.prev_text, s.prev_time)
      else (if not (should_refresh s) || not s.takes_prompts
          then (standing, s.prev_time)
          else refreshed (generate_prompt_insight answer) standing s)

  fallback_nonempty :
      (f : StorageBudgetForecast F) (ns ws : List (StorageBudgetForecast F))
      → (is_empty (fallback_budget_recommendations (f ∷ ns) ws) ≡ false)
        × (is_empty (fallback_budget_recommendations [] (f ∷ ws)) ≡ false)
  unfolding fallback_budget_recommendations workload_line namespace_line join
  fallback_nonempty f ns [] = (refl, refl)
  fallback_nonempty f ns (w ∷ ws) = (refl, refl)

  -- With an enabled client and at least one forecast, the text on the budgets is never empty, whatever
  -- the previous text was and whatever the client answers.
  pub refresh_plan_budget_recommendations_nonempty :
      (s : LlmClientState) (f : StorageBudgetForecast F) (ns ws : List (StorageBudgetForecast F))
      (answer : Answer)
      → s.is_enabled ≡ true
      → s.has_client ≡ true
      → (is_empty (refresh_plan_budget_recommendations s (f ∷ ns) ws answer).0 ≡ false)
        × (is_empty (refresh_plan_budget_recommendations s [] (f ∷ ws) answer).0 ≡ false)
  unfolding refresh_plan_budget_recommendations
  refresh_plan_budget_recommendations_nonempty s f ns ws answer on has =
      let off : (not s.is_enabled || not s.has_client) ≡ false = ground (arith, on, has) in
      let (a, b) = fallback_nonempty f ns ws in
      let first = fallback_budget_recommendations (f ∷ ns) ws in
      let second = fallback_budget_recommendations [] (f ∷ ws) in
      (
        rw off (
            refreshed_nonempty s (standing_recommendations s (f ∷ ns) ws) answer
              (standing_nonempty s first a)),
        rw off (
            refreshed_nonempty s (standing_recommendations s [] (f ∷ ws)) answer
              (standing_nonempty s second b)),
      )
