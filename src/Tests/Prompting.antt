-- ===== src/Tests/Prompting.antt =====
-- The prompts on concrete data.
use capacity_planning_operat.Prelude.{◌≡◌, refl, List, [], ◌∷◌, ◌++◌}
use capacity_planning_operat.Prelude.Text.{Str, bytes, trim_space, join}
use capacity_planning_operat.Prelude.Float.{Milli, milli_float}
use capacity_planning_operat.Llm.Prompt.{combined_prompt}
use capacity_planning_operat.Llm.PlanPrompt.{
  build_risk_change_prompt_data, risk_change_user_prompt, build_risk_change_prompt_parts,
}
use capacity_planning_operat.Plan.Insight.Context.{
  risk_change_prompt, to_plan_risk_changes, to_plan_top_risks,
}

combined :
    combined_prompt (record { version = []; system = bytes "a"; user = bytes "b" })
    ≡ bytes "System:" ++ (10 ∷ bytes "a") ++ (10 ∷ 10 ∷ bytes "User:") ++ (10 ∷ bytes "b")
unfolding combined_prompt trim_space
combined = refl

abbrev no_changes : List Str
no_changes =
    bytes "Plan=web"
    ∷ bytes "ChangeSummary=steady"
    ∷ []
    ∷ bytes "RiskChanges:"
    ∷ bytes "- none"
    ∷ []
    ∷ bytes "CurrentTopRisks:"
    ∷ bytes "- none"
    ∷ []

unchanged_prompt :
    (risk_change_prompt {F = Milli} (bytes "web") (bytes " steady ") [] []).user
    ≡ join (10 ∷ []) no_changes
unfolding risk_change_prompt build_risk_change_prompt_parts build_risk_change_prompt_data
    risk_change_user_prompt to_plan_risk_changes to_plan_top_risks trim_space join
unchanged_prompt = refl
