-- ===== src/Llm/Prompt.antt =====
-- internal/llm/prompt.go: the prompt on a volume. The two templates are written out as the texts that
-- text/template makes of them, which cannot fail on these data, so the fallback is left out.
use capacity_planning_operat.Prelude.{
  ℕ, ◌*◌, Bool, List, [], ◌∷◌, ◌++◌, Option, none, some, if◌then◌else◌, length, get_last?,
}
use capacity_planning_operat.Prelude.Int.{ℤ, pos, ◌-ℤ◌, ◌*ℤ◌, sub64, ltb_ℤ, quot}
use capacity_planning_operat.Prelude.Text.{Str, bytes, trim_space, join}
use capacity_planning_operat.Prelude.Print.{show_int, show_bool}
use capacity_planning_operat.Prelude.Float.{Float64, nought}
use capacity_planning_operat.Analysis.RingBuffer.{Sample}
use capacity_planning_operat.Plan.Insight.{PvcContext}

abbrev insight_prompt_template_version : Str
insight_prompt_template_version = bytes "insight-v1"

pub record PromptParts : Type 0 where
  pub version : Str
  pub system : Str
  pub user : Str

pub record InsightPromptData (F : Type 0) : Type 0 where
  pub prompt_version : Str
  pub namespace : Str
  pub name : Str
  pub used_bytes : ℤ
  pub capacity_bytes : ℤ
  pub usage_percent : F
  pub usage_ratio : F
  pub growth_bytes_per_day : F
  pub growth_mib_per_min : F
  pub confidence_r2 : F
  pub days_until_full : Str
  pub alert_firing : Bool
  pub samples_count : ℤ
  pub sample_window_minutes : ℤ
  pub sample_delta_bytes : ℤ
  pub sample_delta_mib : F

abbrev line_break : Str
line_break = b'\n' ∷ []

-- The texts of the lines of a template.
abbrev pub lines : List Str → Str
lines ss = trim_space (join line_break ss)

-- One text for providers that take one.
unfoldable pub combined_prompt : PromptParts → Str
combined_prompt parts = trim_space (
    bytes "System:"
    ++ line_break
    ++ parts.system
    ++ line_break
    ++ line_break
    ++ bytes "User:"
    ++ line_break
    ++ parts.user)

module _ {F : Type 0} ⦃float : Float64 F⦄ where
  open float use {of_int, lit, add, mul, div, to_int, fixed}

  -- `d.Minutes()`: the whole minutes and the rest are divided apart.
  abbrev minutes : ℤ → F
  minutes d =
      let minute : ℕ = 60_000_000_000 in
      let rest : ℤ = d -ℤ quot d minute *ℤ pos minute in
      add (of_int (quot d minute)) (div (of_int rest) (of_int (pos minute)))

  abbrev window_of : Sample → Option Sample → ℤ × ℤ × F
  window_of first none = (pos 0, pos 0, nought)
  window_of first (some last) =
      let delta = sub64 last.used_bytes first.used_bytes in
      (
        to_int (minutes (last.timestamp -ℤ first.timestamp)),
        delta,
        div (of_int delta) (of_int (pos (1024 * 1024))),
      )

  -- Minutes, bytes and MiB between the first and the last of at least two samples.
  unfoldable pub sample_window_details : List Sample → ℤ × ℤ × F
  sample_window_details [] = (pos 0, pos 0, nought)
  sample_window_details (s ∷ []) = (pos 0, pos 0, nought)
  sample_window_details (s ∷ t ∷ rest) = window_of s (get_last? (t ∷ rest))

  abbrev days_or_unknown : Option F → Str
  days_or_unknown none = bytes "unknown"
  days_or_unknown (some d) = fixed 2 d

  unfoldable pub build_insight_prompt_data : PvcContext F → InsightPromptData F
  build_insight_prompt_data pvc =
      let known = ltb_ℤ (pos 0) pvc.capacity_bytes in
      let ratio =
        if known then div (of_int pvc.used_bytes) (of_int pvc.capacity_bytes) else nought in
      let (window, delta, delta_mib) = sample_window_details pvc.samples in
      record {
        prompt_version = insight_prompt_template_version;
        namespace = pvc.namespace;
        name = pvc.name;
        used_bytes = pvc.used_bytes;
        capacity_bytes = pvc.capacity_bytes;
        usage_percent = if known then mul ratio (lit 100 1) else nought;
        usage_ratio = ratio;
        growth_bytes_per_day = pvc.growth.growth_bytes_per_day;
        growth_mib_per_min =
            div (div pvc.growth.growth_bytes_per_day (lit 1440 1)) (of_int (pos (1024 * 1024)));
        confidence_r2 = pvc.growth.confidence_r2;
        days_until_full = days_or_unknown pvc.growth.days_until_full;
        alert_firing = pvc.alert_firing;
        samples_count = pos (length pvc.samples);
        sample_window_minutes = window;
        sample_delta_bytes = delta;
        sample_delta_mib = delta_mib;
      }

  -- `insightSystemPromptTemplate`.
  unfoldable pub insight_system_prompt : InsightPromptData F → Str
  insight_system_prompt d = lines (
      bytes "You are a Kubernetes storage capacity planning assistant for SRE teams."
      ∷ (bytes "PromptVersion: " ++ d.prompt_version)
      ∷ []
      ∷ bytes "Goal:"
      ∷ bytes
          "Write one short operational insight for this PVC. Use only the PVC data provided in the user message."
      ∷ []
      ∷ bytes "Output contract (strict):"
      ∷ bytes "- Return plain text only (no markdown, no bullets, no JSON)."
      ∷ bytes "- 2-4 sentences total."
      ∷ bytes "- Include \"Risk: <low|medium|high>\" exactly once."
      ∷ bytes "- Include one concrete next action with a timeframe."
      ∷ bytes "- If ConfidenceR2 < 0.50, explicitly mention low confidence."
      ∷ bytes
          "- If GrowthBytesPerDay <= 0, do not recommend expansion; recommend monitoring/investigation."
      ∷ [])

  -- `insightUserPromptTemplate`.
  unfoldable pub insight_user_prompt : InsightPromptData F → Str
  insight_user_prompt d = lines (
      bytes "PVC Data:"
      ∷ (bytes "Namespace=" ++ d.namespace)
      ∷ (bytes "Name=" ++ d.name)
      ∷ (bytes "UsedBytes=" ++ show_int d.used_bytes)
      ∷ (bytes "CapacityBytes=" ++ show_int d.capacity_bytes)
      ∷ (bytes "UsagePercent=" ++ fixed 2 d.usage_percent)
      ∷ (bytes "UsageRatio=" ++ fixed 4 d.usage_ratio)
      ∷ (bytes "GrowthBytesPerDay=" ++ fixed 2 d.growth_bytes_per_day)
      ∷ (bytes "GrowthMiBPerMin=" ++ fixed 2 d.growth_mib_per_min)
      ∷ (bytes "ConfidenceR2=" ++ fixed 3 d.confidence_r2)
      ∷ (bytes "DaysUntilFull=" ++ d.days_until_full)
      ∷ (bytes "AlertFiring=" ++ show_bool d.alert_firing)
      ∷ (bytes "SamplesCount=" ++ show_int d.samples_count)
      ∷ (bytes "SampleWindowMinutes=" ++ show_int d.sample_window_minutes)
      ∷ (bytes "SampleDeltaBytes=" ++ show_int d.sample_delta_bytes)
      ∷ (bytes "SampleDeltaMiB=" ++ fixed 2 d.sample_delta_mib)
      ∷ []
      ∷ bytes "Now produce the insight."
      ∷ [])

  unfoldable pub build_prompt_parts : PvcContext F → PromptParts
  build_prompt_parts pvc =
      let d = build_insight_prompt_data pvc in
      record {
        version = d.prompt_version;
        system = insight_system_prompt d;
        user = insight_user_prompt d;
      }

  unfoldable pub build_prompt : PvcContext F → Str
  build_prompt pvc = combined_prompt (build_prompt_parts pvc)
