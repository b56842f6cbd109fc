-- ===== src/Plan/Client.antt =====
-- resolvePlanLLMClient, buildLLMProviderConfig, the configure*Provider methods, readSecretValue and the
-- cache of clients, of internal/controller/capacityplan_controller.go. The API server's answer to the
-- read of a secret is a parameter; the cache keeps clients as they are made, since what they change
-- later is their own.
pub mod Cache
pub mod Provenance
use capacity_planning_operat.Prelude.{false, List, [], ◌∷◌, ◌++◌, Option, none, some, if◌then◌else◌}
use capacity_planning_operat.Prelude.Int.{ℤ, pos, leb_ℤ}
use capacity_planning_operat.Prelude.Text.{Str, bytes, is_empty, str_eq, trim_space, join}
use capacity_planning_operat.Prelude.Print.{show_int, show_bool}
use capacity_planning_operat.Prelude.Duration.{duration_string}
use capacity_planning_operat.Prelude.Dict.{Dict, lookup, insert}
use capacity_planning_operat.Prelude.Fallible.{Fallible, ok, err, ◌>>=◌, ◌>>◌, refuse}
use capacity_planning_operat.Prelude.Float.{Float64}
use capacity_planning_operat.Api.{
  LlmProviderSpec, OpenAiProviderSpec, AnthropicProviderSpec, FastApiProviderSpec,
  OllamaProviderSpec,
}
use capacity_planning_operat.Llm.{
  ProviderConfig, provider_disabled, provider_open_ai, provider_anthropic, provider_fast_api,
  provider_ollama, default_timeout, default_max_tokens, or_when_not_positive,
}
use capacity_planning_operat.Llm.Clients.{Generator, UrlLibrary, new_insight_generator}
use capacity_planning_operat.Plan.Insight.{default_secret_key, default_llm_model_label}

-- A secret as it is read: its data and its resource version.
pub record Secret : Type 0 where
  pub values : Dict Str
  pub resource_version : Str

pub record Secrets : Type 0 where
  pub operator_namespace : Str
  -- `POD_NAMESPACE`.
  pub pod_namespace : Str
  pub get_secret : (namespace name : Str) → Fallible Secret
  -- `%q`, which escapes what is not printable.
  pub quote : Str → Str

-- A setting of a provider, with what it adds to the key of the cache.
abbrev Keyed : Type 0 → Type 0
Keyed A = Fallible (A × List Str)

module _ (secrets : Secrets) where
  abbrev secret_namespace : Str
  secret_namespace =
      if is_empty secrets.operator_namespace
      then (if is_empty secrets.pod_namespace then bytes "default" else secrets.pod_namespace)
      else secrets.operator_namespace

  abbrev secret_path : Str → Str
  secret_path name = bytes "secret " ++ secret_namespace ++ bytes "/" ++ name

  abbrev got_secret : Str → Fallible Secret → Fallible Secret
  got_secret name (ok s) = ok s
  got_secret name (err e) = err (bytes "getting " ++ secret_path name ++ bytes ": " ++ e)

  abbrev secret_text : Str → Str → Option Str → Fallible Str
  secret_text name key none = err (secret_path name ++ bytes " missing key " ++ secrets.quote key)
  secret_text name key (some val) =
      if is_empty (trim_space val)
      then err (secret_path name ++ bytes " key " ++ secrets.quote key ++ bytes " is empty")
      else ok (trim_space val)

  -- The value and the resource version.
  unfoldable pub read_secret_value : Str → Str → Fallible (Str × Str)
  read_secret_value given_name given_key = do
    let name = trim_space given_name
    refuse (is_empty name) (bytes "secret name is required")
    let key = trim_space given_key
    refuse (is_empty key) (bytes "secret key is required for secret " ++ secrets.quote name)
    sec ← got_secret name (secrets.get_secret secret_namespace name)
    str ← secret_text name key (lookup key sec.values)
    ok (str, sec.resource_version)

  -- Token and version, empty where no secret is named.
  abbrev auth_of : FastApiProviderSpec → Fallible (Str × Str)
  auth_of spec =
      if is_empty (trim_space spec.auth_secret_ref_name)
      then ok ([], [])
      else read_secret_value spec.auth_secret_ref_name
          (default_secret_key spec.auth_secret_key (bytes "token"))

  module _ {F : Type 0} ⦃float : Float64 F⦄ where
    open float use {fixed}

    unfoldable pub configure_open_ai_provider :
        ProviderConfig F → OpenAiProviderSpec → Keyed (ProviderConfig F)
    configure_open_ai_provider cfg spec = do
      let key = default_secret_key spec.secret_key (bytes "apiKey")
      (api_key, version) ← read_secret_value spec.secret_ref_name key
      let base_url = trim_space spec.base_url
      ok (
        record cfg { open_ai = record { api_key = api_key; base_url = base_url } },
        (bytes "openai.baseURL=" ++ base_url)
            ∷ (bytes "openai.secret=" ++ trim_space spec.secret_ref_name)
            ∷ (bytes "openai.secretKey=" ++ key)
            ∷ (bytes "openai.secretRV=" ++ version)
            ∷ [],
      )

    unfoldable pub configure_anthropic_provider :
        ProviderConfig F → AnthropicProviderSpec → Keyed (ProviderConfig F)
    configure_anthropic_provider cfg spec = do
      let key = default_secret_key spec.secret_key (bytes "apiKey")
      (api_key, version) ← read_secret_value spec.secret_ref_name key
      let base_url = trim_space spec.base_url
      ok (
        record cfg { anthropic = record { api_key = api_key; base_url = base_url } },
        (bytes "anthropic.baseURL=" ++ base_url)
            ∷ (bytes "anthropic.secret=" ++ trim_space spec.secret_ref_name)
            ∷ (bytes "anthropic.secretKey=" ++ key)
            ∷ (bytes "anthropic.secretRV=" ++ version)
            ∷ [],
      )

    unfoldable pub configure_fast_api_provider :
        ProviderConfig F → FastApiProviderSpec → Keyed (ProviderConfig F)
    configure_fast_api_provider cfg spec = do
      (token, version) ← auth_of spec
      let url = trim_space spec.url
      let health_url = trim_space spec.health_url
      ok (
        record cfg {
          fast_api = record {
            url = url;
            auth_token = token;
            tls_skip_verify = spec.tls_skip_verify;
            health_url = health_url;
            failure_threshold = spec.failure_threshold;
            cooldown = spec.cooldown;
          };
        },
        (bytes "fastapi.url=" ++ url)
            ∷ (bytes "fastapi.tlsSkipVerify=" ++ show_bool spec.tls_skip_verify)
            ∷ (bytes "fastapi.healthURL=" ++ health_url)
            ∷ (bytes "fastapi.failureThreshold=" ++ show_int spec.failure_threshold)
            ∷ (bytes "fastapi.cooldown=" ++ duration_string spec.cooldown)
            ∷ (bytes "fastapi.authSecret=" ++ trim_space spec.auth_secret_ref_name)
            ∷ (bytes "fastapi.authSecretKey="
                ++ default_secret_key spec.auth_secret_key (bytes "token"))
            ∷ (bytes "fastapi.authSecretRV=" ++ version)
            ∷ [],
      )

    unfoldable pub configure_ollama_provider :
        ProviderConfig F → OllamaProviderSpec → Keyed (ProviderConfig F)
    configure_ollama_provider cfg spec = ok (
      record cfg { ollama = record { url = trim_space spec.url } },
      (bytes "ollama.url=" ++ trim_space spec.url) ∷ [],
    )

    -- The settings that all providers share.
    unfoldable pub base_config : LlmProviderSpec F → ProviderConfig F
    base_config spec =
        let provider = trim_space spec.provider in
        record {
          provider = if is_empty provider then provider_disabled else provider;
          model = trim_space spec.model;
          timeout = or_when_not_positive spec.timeout default_timeout;
          max_tokens = or_when_not_positive spec.max_tokens default_max_tokens;
          temperature = spec.temperature;
          open_ai = record { api_key = []; base_url = [] };
          anthropic = record { api_key = []; base_url = [] };
          fast_api = record {
            url = [];
            auth_token = [];
            tls_skip_verify = false;
            health_url = [];
            failure_threshold = pos 0;
            cooldown = pos 0;
          };
          ollama = record { url = [] };
        }

    abbrev temperature_part : Option F → List Str
    temperature_part none = []
    temperature_part (some t) = (bytes "temp=" ++ fixed 6 t) ∷ []

    unfoldable pub base_key_parts : ProviderConfig F → List Str
    base_key_parts cfg =
        (bytes "provider=" ++ cfg.provider)
        ∷ (bytes "model=" ++ cfg.model)
        ∷ (bytes "timeout=" ++ duration_string cfg.timeout)
        ∷ (bytes "maxTokens=" ++ show_int cfg.max_tokens)
        ∷ temperature_part cfg.temperature

    abbrev with_key : List Str → Keyed (ProviderConfig F) → Fallible (ProviderConfig F × Str)
    with_key parts r = do (cfg, extra) ← r; ok (cfg, join (bytes "|") (parts ++ extra))

    -- The `switch`.
    unfoldable pub configure_provider :
        LlmProviderSpec F → ProviderConfig F → Fallible (ProviderConfig F × Str)
    configure_provider spec cfg =
        let parts = base_key_parts cfg in
        if str_eq cfg.provider provider_disabled
        then ok (cfg, [])
        else (if str_eq cfg.provider provider_open_ai
            then with_key parts (configure_open_ai_provider cfg spec.open_ai)
            else (if str_eq cfg.provider provider_anthropic
                then with_key parts (configure_anthropic_provider cfg spec.anthropic)
                else (if str_eq cfg.provider provider_fast_api
                    then with_key parts (configure_fast_api_provider cfg spec.fast_api)
                    else (if str_eq cfg.provider provider_ollama
                        then with_key parts (configure_ollama_provider cfg spec.ollama)
                        else err
                            (bytes "unsupported llm provider " ++ secrets.quote cfg.provider)))))

    unfoldable pub build_llm_provider_config : LlmProviderSpec F → Fallible (ProviderConfig F × Str)
    build_llm_provider_config spec = configure_provider spec (base_config spec)
