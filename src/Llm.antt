-- ===== src/Llm.antt =====
-- internal/llm/providers.go: the settings of the language model providers, and the kinds of client.
pub mod Clients
pub mod Prompt
pub mod PlanPrompt
pub mod Breaker
use capacity_planning_operat.Prelude.{Bool, Option, if◌then◌else◌}
use capacity_planning_operat.Prelude.Int.{ℤ, pos, leb_ℤ}
use capacity_planning_operat.Prelude.Text.{Str, bytes, is_empty}

abbrev pub provider_disabled : Str
provider_disabled = bytes "disabled"

abbrev pub provider_open_ai : Str
provider_open_ai = bytes "openai"

abbrev pub provider_anthropic : Str
provider_anthropic = bytes "anthropic"

abbrev pub provider_fast_api : Str
provider_fast_api = bytes "fastapi"

abbrev pub provider_ollama : Str
provider_ollama = bytes "ollama"

abbrev pub default_timeout : ℤ
default_timeout = pos 15_000_000_000

abbrev pub default_max_tokens : ℤ
default_max_tokens = pos 256

abbrev pub default_cooldown : ℤ
default_cooldown = pos 60_000_000_000

abbrev pub default_failures : ℤ
default_failures = pos 3

pub record OpenAiConfig : Type 0 where
  pub api_key : Str
  pub base_url : Str

pub record AnthropicConfig : Type 0 where
  pub api_key : Str
  pub base_url : Str

pub record FastApiConfig : Type 0 where
  pub url : Str
  pub auth_token : Str
  pub tls_skip_verify : Bool
  pub health_url : Str
  pub failure_threshold : ℤ
  pub cooldown : ℤ

pub record OllamaConfig : Type 0 where
  pub url : Str

pub record ProviderConfig (F : Type 0) : Type 0 where
  pub provider : Str
  pub model : Str
  pub timeout : ℤ
  pub max_tokens : ℤ
  pub temperature : Option F
  pub open_ai : OpenAiConfig
  pub anthropic : AnthropicConfig
  pub fast_api : FastApiConfig
  pub ollama : OllamaConfig

abbrev pub or_when_not_positive : ℤ → ℤ → ℤ
or_when_not_positive n d = if leb_ℤ n (pos 0) then d else n

unfoldable pub normalize : {F : Type 0} → ProviderConfig F → ProviderConfig F
normalize c = record c {
  provider = if is_empty c.provider then provider_disabled else c.provider;
  timeout = or_when_not_positive c.timeout default_timeout;
  max_tokens = or_when_not_positive c.max_tokens default_max_tokens;
}
