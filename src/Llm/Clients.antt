-- ===== src/Llm/Clients.antt =====
-- NewInsightGenerator of internal/llm/providers.go and the constructors that it calls, in the
-- *_client.go files beside it: which settings make a client, and what the client then keeps. The
-- third-party SDKs of OpenAI and Anthropic, and `net/url`, are parameters.
use capacity_planning_operat.Prelude.{Bool, ◌||◌, Option, none, some, if◌then◌else◌, ◌++◌, []}
use capacity_planning_operat.Prelude.Int.{ℤ, pos}
use capacity_planning_operat.Prelude.Text.{
  Str, bytes, is_empty, str_eq, trim_space, has_suffix, trim_slashes,
}
use capacity_planning_operat.Prelude.Fallible.{Fallible, ok, err, ◌>>=◌, ◌>>◌, refuse}
use capacity_planning_operat.Llm.{
  ProviderConfig, normalize, default_failures, default_cooldown, or_when_not_positive,
  provider_disabled, provider_open_ai, provider_anthropic, provider_fast_api, provider_ollama,
}

-- `url.URL`, of which the code reads or writes these parts.
pub record Url (Rest : Type 0) : Type 0 where
  pub scheme : Str
  pub host : Str
  pub path : Str
  pub raw_path : Str
  pub raw_query : Str
  pub fragment : Str
  pub rest : Rest

-- `url.Parse` with the text of its error, and `String`.
pub record UrlLibrary : Type 1 where
  pub Rest : Type 0
  pub parse : Str → Fallible (Url Rest)
  pub print : Url Rest → Str

-- The clients of OpenAI and of Anthropic keep the same.
pub record SdkGenerator (F : Type 0) : Type 0 where
  pub api_key : Str
  pub base_url : Str
  pub timeout : ℤ
  pub model : Str
  pub max_tokens : ℤ
  pub temperature : Option F

pub record OllamaInsightGenerator (F : Type 0) : Type 0 where
  pub endpoint : Str
  pub model : Str
  pub max_tokens : ℤ
  pub temperature : Option F
  pub timeout : ℤ

-- The settings of a FastAPI client, which do not change, and what its lock guards; `none` is the zero
-- time.
pub record FastApiInsightGenerator : Type 0 where
  pub url : Str
  pub health_url : Str
  pub auth_token : Str
  pub tls_skip_verify : Bool
  pub timeout : ℤ
  pub failure_threshold : ℤ
  pub cooldown : ℤ
  pub consecutive_fails : ℤ
  pub degraded_until : Option ℤ

pub data Generator (F : Type 0) : Type 0 where
  open_ai : SdkGenerator F → Generator F
  anthropic : SdkGenerator F → Generator F
  fast_api : FastApiInsightGenerator → Generator F
  ollama : OllamaInsightGenerator F → Generator F

abbrev or_model : Str → Str → Str
or_model model d = if is_empty (trim_space model) then d else trim_space model

module _ {F : Type 0} where
  unfoldable pub new_open_ai_insight_generator : ProviderConfig F → Fallible (Generator F)
  new_open_ai_insight_generator cfg =
      if is_empty (trim_space cfg.open_ai.api_key)
      then err (bytes "openai api key is required")
      else ok (
          open_ai (record {
            api_key = cfg.open_ai.api_key;
            base_url = trim_space cfg.open_ai.base_url;
            timeout = cfg.timeout;
            model = or_model cfg.model (bytes "gpt-4.1-mini");
            max_tokens = cfg.max_tokens;
            temperature = cfg.temperature;
          }))

  unfoldable pub new_anthropic_insight_generator : ProviderConfig F → Fallible (Generator F)
  new_anthropic_insight_generator cfg =
      if is_empty (trim_space cfg.anthropic.api_key)
      then err (bytes "anthropic api key is required")
      else ok (
          anthropic (record {
            api_key = cfg.anthropic.api_key;
            base_url = trim_space cfg.anthropic.base_url;
            timeout = cfg.timeout;
            model = or_model cfg.model (bytes "claude-3-5-haiku-latest");
            max_tokens = cfg.max_tokens;
            temperature = cfg.temperature;
          }))

-- The path that replaces that of the given address.
abbrev generate_path : Str → Str
generate_path path =
    if is_empty path || str_eq path (bytes "/")
    then bytes "/api/generate"
    else trim_slashes path ++ bytes "/api/generate"

abbrev pub has_generate : Str → Bool
has_generate path = has_suffix (bytes "/api/generate") path

module _ (urls : UrlLibrary) where
  abbrev health_of : Fallible (Url urls.Rest) → Str
  health_of (err e) = []
  health_of (ok u) =
      if is_empty u.scheme || is_empty u.host
      then []
      else urls.print
          (record u { path = bytes "/healthz"; raw_path = []; raw_query = []; fragment = [] })

  unfoldable pub derive_fast_api_health_url : Str → Str
  derive_fast_api_health_url raw = health_of (urls.parse (trim_space raw))

  abbrev generate_url : Url urls.Rest → Str
  generate_url u =
      let path = trim_space u.path in
      urls.print (record u {
        path = if has_generate path then u.path else generate_path path;
        raw_query = [];
        fragment = [];
      })

  abbrev checked_url : Fallible (Url urls.Rest) → Fallible Str
  checked_url (err e) = err (bytes "invalid ollama url: " ++ e)
  checked_url (ok u) =
      if is_empty u.scheme || is_empty u.host
      then err (bytes "ollama url must include scheme and host")
      else ok (generate_url u)

  unfoldable pub resolve_ollama_generate_url : Str → Fallible Str
  resolve_ollama_generate_url base_url = checked_url (urls.parse base_url)

module _ {F : Type 0} (urls : UrlLibrary) where
  unfoldable pub new_fast_api_insight_generator :
      ProviderConfig F → Fallible FastApiInsightGenerator
  new_fast_api_insight_generator cfg =
      let url = trim_space cfg.fast_api.url in
      let health = trim_space cfg.fast_api.health_url in
      if is_empty url
      then err (bytes "fastapi url is required")
      else ok (record {
        url = url;
        health_url = if is_empty health then derive_fast_api_health_url urls url else health;
        auth_token = trim_space cfg.fast_api.auth_token;
        tls_skip_verify = cfg.fast_api.tls_skip_verify;
        timeout = cfg.timeout;
        failure_threshold = or_when_not_positive cfg.fast_api.failure_threshold default_failures;
        cooldown = or_when_not_positive cfg.fast_api.cooldown default_cooldown;
        consecutive_fails = pos 0;
        degraded_until = none;
      })

  unfoldable pub new_ollama_insight_generator : ProviderConfig F → Fallible (Generator F)
  new_ollama_insight_generator cfg = do
    let base_url = trim_space cfg.ollama.url
    refuse (is_empty base_url) (bytes "ollama url is required")
    let model = trim_space cfg.model
    refuse (is_empty model) (bytes "ollama model is required")
    endpoint ← resolve_ollama_generate_url urls base_url
    ok (
        ollama (record {
          endpoint = endpoint;
          model = model;
          max_tokens = cfg.max_tokens;
          temperature = cfg.temperature;
          timeout = cfg.timeout;
        }))

  abbrev some_generator : Fallible (Generator F) → Fallible (Option (Generator F))
  some_generator r = do g ← r; ok (some g)

  abbrev fast_api_generator : Fallible FastApiInsightGenerator → Fallible (Option (Generator F))
  fast_api_generator r = do g ← r; ok (some (fast_api g))

  -- The `switch`.
  unfoldable pub select_provider : ProviderConfig F → Fallible (Option (Generator F))
  select_provider cfg =
      if str_eq cfg.provider provider_disabled
      then ok none
      else (if str_eq cfg.provider provider_open_ai
          then some_generator (new_open_ai_insight_generator cfg)
          else (if str_eq cfg.provider provider_anthropic
              then some_generator (new_anthropic_insight_generator cfg)
              else (if str_eq cfg.provider provider_fast_api
                  then fast_api_generator (new_fast_api_insight_generator cfg)
                  else (if str_eq cfg.provider provider_ollama
                      then some_generator (new_ollama_insight_generator cfg)
                      else err (bytes "unsupported llm provider: " ++ cfg.provider)))))

  unfoldable pub new_insight_generator : ProviderConfig F → Fallible (Option (Generator F))
  new_insight_generator cfg = select_provider (normalize cfg)
