-- ===== src/Plan/Insight/Refresh.antt =====
-- What the language model can and cannot change.
use capacity_planning_operat.Prelude.{
  Bool, ◌≡◌, ◌⊎◌, refl, true, false, ◌||◌, not, List, Option, none, some, inl, inr, Bool-cases,
  arith,
}
use capacity_planning_operat.Prelude.Int.{ℤ, ltb_ℤ, ◌-ℤ◌}
use capacity_planning_operat.Prelude.Text.{Str, is_empty, trim_space}
use capacity_planning_operat.Prelude.Float.{Float64}
use capacity_planning_operat.Analysis.RingBuffer.{Sample}
use capacity_planning_operat.Api.{PvcSummary}
use capacity_planning_operat.Plan.Insight.{
  Answer, text, error, Model, PvcContext, context_of, LlmClientState, should_refresh,
  generate_prompt_insight, refreshed, standing_text, refresh_plan_risk_change_insight,
}

-- There is no text yet, or it is at least as old as the interval.
abbrev pub IsOver : Option ℤ → ℤ → ℤ → Type 0
IsOver last now interval =
    (last ≡ none) ⊎ ((t : ℤ) × (last ≡ some t) × (ltb_ℤ (now -ℤ t) interval ≡ false))

module _ {F : Type 0} ⦃float : Float64 F⦄ where
  -- How a request ends, and why: the summary stays as it was measured without a client, for a volume
  -- that does not alert where only those are wanted, before the interval since the last text is over,
  -- and after an error; else it has the new text and its time.
  pub data IsAnswered (measured : PvcSummary F) (samples : List Sample) (model : Model F)
      (before after : ℤ) (out : PvcSummary F) : Type 0 where
    without_client :
        model.client ≡ none → out ≡ measured → IsAnswered measured samples model before after out
    unwanted :
        model.only_alerting ≡ true
        → measured.alert_firing ≡ false
        → out ≡ measured
        → IsAnswered measured samples model before after out
    too_early :
        (last : ℤ)
        → measured.last_llm_time ≡ some last
        → ltb_ℤ (before -ℤ last) model.interval ≡ true
        → out ≡ measured
        → IsAnswered measured samples model before after out
    refused :
        (client : PvcContext F → Answer) (timeout : Bool)
        → model.client ≡ some client
        → client (context_of measured samples) ≡ error timeout
        → out ≡ measured
        → IsAnswered measured samples model before after out
    answered :
        (client : PvcContext F → Answer) (t : Str)
        → model.client ≡ some client
        → client (context_of measured samples) ≡ text t
        → (model.only_alerting ≡ false) ⊎ (measured.alert_firing ≡ true)
        → IsOver measured.last_llm_time before model.interval
        → out ≡ record measured { llm_insight = t; last_llm_time = some after }
        → IsAnswered measured samples model before after out

pub refreshed_text :
    (a : Answer) (summary : Str) (s : LlmClientState)
    → is_empty summary ≡ false
    → is_empty (refreshed (generate_prompt_insight a) summary s).0 ≡ false
unfolding generate_prompt_insight
refreshed_text (error timeout) summary s h = h
refreshed_text (text t) summary s h = elim (Bool-cases (is_empty (trim_space t))) [
  | inl e ↦ rw e h
  | inr e ↦ rw e e
]

standing_text_nonempty :
    (s : LlmClientState) (change_summary : Str)
    → (is_empty (trim_space s.prev_text) ≡ false) ⊎ (is_empty (trim_space change_summary) ≡ false)
    → is_empty (standing_text s change_summary) ≡ false
standing_text_nonempty s change_summary h = elim (Bool-cases (is_empty (trim_space s.prev_text))) [
  | inl e ↦ elim h [ inl p ↦ absurd (ground (arith, e, p)) | inr p ↦ rw e p ]
  | inr e ↦ rw e e
]

-- With an enabled client, and a previous text or a summary of the changes that is not blank, the text
-- on the risk changes is not empty, whatever the client answers.
pub refresh_plan_risk_change_insight_nonempty :
    (s : LlmClientState) (change_summary : Str) (answer : Answer)
    → s.is_enabled ≡ true
    → s.has_client ≡ true
    → (is_empty (trim_space s.prev_text) ≡ false) ⊎ (is_empty (trim_space change_summary) ≡ false)
    → is_empty (refresh_plan_risk_change_insight s change_summary answer).0 ≡ false
unfolding refresh_plan_risk_change_insight
refresh_plan_risk_change_insight_nonempty s change_summary answer on has filled =
    let h = standing_text_nonempty s change_summary filled in
    let off : (not s.is_enabled || not s.has_client) ≡ false = ground (arith, on, has) in
    elim (Bool-cases (not (should_refresh s) || not s.takes_prompts)) [
      | inl e ↦ rw (e, off) h
      | inr e ↦ rw (e, off) (refreshed_text answer (standing_text s change_summary) s h)
    ]

-- With an enabled client, if no refresh is due, what the client would answer has no influence.
pub refresh_plan_risk_change_insight_unasked :
    (s : LlmClientState) (change_summary : Str) (a b : Answer)
    → s.is_enabled ≡ true
    → s.has_client ≡ true
    → should_refresh s ≡ false
    → refresh_plan_risk_change_insight s change_summary a
      ≡ refresh_plan_risk_change_insight s change_summary b
unfolding refresh_plan_risk_change_insight
refresh_plan_risk_change_insight_unasked s change_summary a b on has old =
    let off : (not s.is_enabled || not s.has_client) ≡ false = ground (arith, on, has) in
    rw (old, off) refl
