-- ===== src/Plan/Insight.antt =====
-- buildSummary, llmClientState, generatePromptInsight and refreshPlanRiskChangeInsight of
-- internal/controller/capacityplan_controller.go: one volume's summary, and when a text of the
-- language model is asked for again. A client answers a request with a text or an error. The latency
-- histogram, and the counters of a request by generatePromptInsight, are left out.
pub mod Context
pub mod Refresh
pub mod Budget
use capacity_planning_operat.Prelude.{
  Bool, true, false, ◌&&◌, ◌||◌, not, List, [], ◌∷◌, Option, none, some, if◌then◌else◌, length,
  get_last?,
}
use capacity_planning_operat.Prelude.Int.{ℤ, pos, ltb_ℤ, leb_ℤ, ◌-ℤ◌}
use capacity_planning_operat.Prelude.Text.{Str, bytes, is_empty, str_eq, trim_space}
use capacity_planning_operat.Prelude.Float.{Float64, nought}
use capacity_planning_operat.Analysis.RingBuffer.{Sample}
use capacity_planning_operat.Analysis.Growth.{GrowthResult, calculate_growth}
use capacity_planning_operat.Operator.{Series, increment}
use capacity_planning_operat.Api.{PvcSummary}
use capacity_planning_operat.Watcher.{Pvc}

-- The answer of a client; `error` says whether it is a timeout.
pub data Answer : Type 0 where
  text : Str → Answer
  error : Bool → Answer

unfoldable pub default_secret_key : Str → Str → Str
default_secret_key v fallback = if is_empty (trim_space v) then fallback else trim_space v

unfoldable pub default_llm_model_label : Str → Str
default_llm_model_label v = if is_empty (trim_space v) then bytes "default" else trim_space v

pub record PvcContext (F : Type 0) : Type 0 where
  pub namespace : Str
  pub name : Str
  pub growth : GrowthResult F
  pub used_bytes : ℤ
  pub capacity_bytes : ℤ
  pub alert_firing : Bool
  pub samples : List Sample

-- What a summary needs to know of the model that is configured.
pub record Model (F : Type 0) : Type 0 where
  pub client : Option (PvcContext F → Answer)
  pub provider : Str
  pub label : Str
  pub interval : ℤ
  pub only_alerting : Bool

-- The watcher's capacity, or else the one that the claim requests.
abbrev pub summary_capacity : Option ℤ → Pvc → ℤ
summary_capacity (some c) pvc = c
summary_capacity none pvc = elim pvc.requested [ some q ↦ q | none ↦ pos 0 ]

-- `lastLLMTime == nil || time.Since(lastLLMTime.Time) >= llmInterval`.
abbrev pub is_due : Option ℤ → ℤ → ℤ → Bool
is_due none now interval = true
is_due (some last) now interval = leb_ℤ interval (now -ℤ last)

module _ {F : Type 0} ⦃float : Float64 F⦄ where
  open float use {of_int, div, lt, le}

  -- The counters of a request, by its answer.
  unfoldable pub count_answer : Str → Str → Answer → Series F → Series F
  count_answer provider model (text s) m =
      increment (bytes "capacityplan_llm_requests_total" ∷ provider ∷ model ∷ []) m
  count_answer provider model (error timeout) m =
      let m₁ = increment (bytes "capacityplan_llm_requests_total" ∷ provider ∷ model ∷ []) m in
      let m₂ = increment (bytes "capacityplan_llm_errors_total" ∷ provider ∷ model ∷ []) m₁ in
      if timeout
      then increment (bytes "capacityplan_llm_timeouts_total" ∷ provider ∷ model ∷ []) m₂
      else m₂

  abbrev latest_use : Option Sample → PvcSummary F → ℤ × Option ℤ
  latest_use none prev = (prev.used_bytes, prev.last_sample_time)
  latest_use (some s) prev = (s.used_bytes, some s.timestamp)

  abbrev pub fills_within : Option F → F → Bool
  fills_within none threshold = false
  fills_within (some d) threshold = lt d threshold

  -- The summary with the text and the time of the previous one.
  unfoldable pub measure :
      Str → Str → Pvc → Option ℤ → List Sample → F → F → PvcSummary F → PvcSummary F
  measure namespace name pvc from_watcher samples usage_threshold days_threshold prev =
      let capacity = summary_capacity from_watcher pvc in
      let growth = calculate_growth samples capacity in
      let (used, time) = latest_use (get_last? samples) prev in
      let ratio = if ltb_ℤ (pos 0) capacity then div (of_int used) (of_int capacity) else nought in
      record {
        namespace = namespace;
        name = name;
        capacity_bytes = capacity;
        used_bytes = used;
        usage_ratio = ratio;
        growth_bytes_per_day = growth.growth_bytes_per_day;
        days_until_full = growth.days_until_full;
        confidence_r2 = growth.confidence_r2;
        samples_count = length samples;
        last_sample_time = time;
        llm_insight = prev.llm_insight;
        last_llm_time = prev.last_llm_time;
        alert_firing =
            le usage_threshold ratio || fills_within growth.days_until_full days_threshold;
      }

  with_answer : PvcSummary F → ℤ → Answer → PvcSummary F
  with_answer s now (error timeout) = s
  with_answer s now (text t) = record s { llm_insight = t; last_llm_time = some now }

  pub context_of : PvcSummary F → List Sample → PvcContext F
  context_of s samples = record {
    namespace = s.namespace;
    name = s.name;
    growth = calculate_growth samples s.capacity_bytes;
    used_bytes = s.used_bytes;
    capacity_bytes = s.capacity_bytes;
    alert_firing = s.alert_firing;
    samples = samples;
  }

  -- The request to the client, at the times before and after it.
  ask :
      PvcSummary F
      → List Sample
      → Model F
      → Option (PvcContext F → Answer)
      → ℤ
      → ℤ
      → Series F
      → PvcSummary F × Series F
  unfolding with_answer context_of
  ask s samples model none before after m = (s, m)
  ask s samples model (some client) before after m =
      let answer = client (context_of s samples) in
      if (model.only_alerting && not s.alert_firing)
        || not (is_due s.last_llm_time before model.interval)
      then (s, m)
      else (with_answer s after answer, count_answer model.provider model.label answer m)

  unfoldable pub build_summary :
      Str
      → Str
      → Pvc
      → Option ℤ
      → List Sample
      → F
      → F
      → Model F
      → PvcSummary F
      → ℤ
      → ℤ
      → Series F
      → PvcSummary F × Series F
  unfolding ask
  build_summary namespace name pvc from_watcher samples usage_threshold days_threshold model prev
        before after m =
      let s = measure namespace name pvc from_watcher samples usage_threshold days_threshold prev in
      ask s samples model model.client before after m

-- `llmClientState`; of its client, whether there is one and whether it takes prompts.
pub record LlmClientState : Type 0 where
  pub has_client : Bool
  pub takes_prompts : Bool
  pub provider : Str
  pub model : Str
  pub interval : ℤ
  pub now : ℤ
  pub prev_hash : Str
  pub curr_hash : Str
  pub prev_text : Str
  pub prev_time : Option ℤ
  pub is_enabled : Bool

abbrev is_stale : LlmClientState → Option ℤ → Bool
is_stale s none = true
is_stale s (some prev) = leb_ℤ s.interval (pos 0) || leb_ℤ s.interval (s.now -ℤ prev)

unfoldable pub should_refresh : LlmClientState → Bool
should_refresh s =
    if not s.is_enabled || not s.has_client
    then false
    else (if str_eq (trim_space s.prev_hash) (trim_space s.curr_hash)
        then is_stale s s.prev_time
        else true)

-- The trimmed text of a prompt's answer; an error and an empty text give none.
unfoldable pub generate_prompt_insight : Answer → Option Str
generate_prompt_insight (error timeout) = none
generate_prompt_insight (text t) = if is_empty (trim_space t) then none else some (trim_space t)

abbrev pub refreshed : Option Str → Str → LlmClientState → Str × Option ℤ
refreshed none summary s = (summary, s.prev_time)
refreshed (some t) summary s = (t, some s.now)

-- The previous text, or else the summary of the changes that the controller writes itself.
abbrev pub standing_text : LlmClientState → Str → Str
standing_text s change_summary =
    if is_empty (trim_space s.prev_text) then trim_space change_summary else trim_space s.prev_text

-- `answer` is what the client would say to the prompt.
unfoldable pub refresh_plan_risk_change_insight : LlmClientState → Str → Answer → Str × Option ℤ
unfolding should_refresh generate_prompt_insight
refresh_plan_risk_change_insight s change_summary answer =
    let summary = standing_text s change_summary in
    if not s.is_enabled || not s.has_client
    then (trim_space s.prev_text, s.prev_time)
    else (if not (should_refresh s) || not s.takes_prompts
        then (summary, s.prev_time)
        else refreshed (generate_prompt_insight answer) summary s)
