-- ===== src/Tests/Clients.antt =====
-- The client of a plan that asks for Ollama.
use capacity_planning_operat.Prelude.{◌≡◌, refl, [], ◌++◌, none}
use capacity_planning_operat.Prelude.Int.{pos}
use capacity_planning_operat.Prelude.Text.{Str, bytes, join, trim_space, str_eq, itoa, has_suffix}
use capacity_planning_operat.Prelude.Dict.{lookup, insert}
use capacity_planning_operat.Prelude.Duration.{duration_string}
use capacity_planning_operat.Prelude.Fallible.{ok, err}
use capacity_planning_operat.Prelude.Print.{quoted}
use capacity_planning_operat.Prelude.Float.{Milli, milli_float}
use capacity_planning_operat.Api.{LlmProviderSpec}
use capacity_planning_operat.Llm.{normalize, ProviderConfig}
use capacity_planning_operat.Llm.Clients.{
  Generator, ollama, UrlLibrary, new_ollama_insight_generator, new_insight_generator,
  select_provider, resolve_ollama_generate_url,
}
use capacity_planning_operat.Plan.Insight.{default_llm_model_label}
use capacity_planning_operat.Plan.Client.{
  Secrets, build_llm_provider_config, configure_provider, configure_ollama_provider, base_config,
  base_key_parts,
}
use capacity_planning_operat.Plan.Client.Cache.{
  resolve_plan_llm_client, resolve_plan_llm_client_cached, with_config, get_cached_llm_client,
  set_cached_llm_client,
}
use capacity_planning_operat.Plan.Client.Provenance.{start, resolved, IsBuilt, Reach-IsBuilt}
use capacity_planning_operat.Tests.Insights.{plan}

-- Every text is an address of a host, with its path as it stands.
abbrev pub urls : UrlLibrary
urls = record {
  Rest = Str;
  parse = λ s. ok (record {
    scheme = bytes "http";
    host = bytes "llm";
    path = [];
    raw_path = [];
    raw_query = [];
    fragment = [];
    rest = s;
  });
  print = λ u. u.rest ++ u.path;
}

abbrev pub secrets : Secrets
secrets = record {
  operator_namespace = [];
  pod_namespace = [];
  get_secret = λ namespace name. err (bytes "not found");
  quote = quoted;
}

abbrev asked : LlmProviderSpec Milli
asked =
    let p = plan (bytes "main") 5 in
    record (p.spec.llm) {
      provider = bytes "ollama";
      model = bytes "llama3";
      ollama = record { url = bytes "http://llm" };
    }

abbrev local : Generator Milli
local = ollama (record {
  endpoint = bytes "http://llm/api/generate";
  model = bytes "llama3";
  max_tokens = pos 256;
  temperature = none;
  timeout = pos 15_000_000_000;
})

-- No text is an address any more.
abbrev broken_urls : UrlLibrary
broken_urls = record { Rest = Str; parse = λ s. err (bytes "invalid"); print = λ u. u.rest }

abbrev asked_key : Str
asked_key = bytes "provider=ollama|model=llama3|timeout=15s|maxTokens=256|ollama.url=http://llm"

abbrev asked_config : ProviderConfig Milli
asked_config = record (base_config secrets asked) { ollama = record { url = bytes "http://llm" } }

resolve_plan_llm_client_cached_example :
    resolve_plan_llm_client broken_urls secrets
      (resolve_plan_llm_client urls secrets [] asked).cache
      asked
    ≡ resolve_plan_llm_client urls secrets [] asked
unfolding resolve_plan_llm_client get_cached_llm_client lookup with_config build_llm_provider_config
    configure_provider str_eq base_config trim_space configure_ollama_provider join base_key_parts
    new_insight_generator select_provider normalize new_ollama_insight_generator
    resolve_ollama_generate_url set_cached_llm_client insert duration_string itoa has_suffix
    default_llm_model_label
resolve_plan_llm_client_cached_example =
    resolve_plan_llm_client_cached urls broken_urls secrets [] asked asked_config asked_key local
      (bytes "ollama") (bytes "llama3") refl refl refl

Reach-IsBuilt_example :
    IsBuilt urls
      (bytes "provider=ollama|model=llama3|timeout=15s|maxTokens=256|ollama.url=http://llm")
      local
unfolding resolve_plan_llm_client get_cached_llm_client lookup with_config build_llm_provider_config
    configure_provider str_eq base_config trim_space configure_ollama_provider join base_key_parts
    new_insight_generator select_provider normalize new_ollama_insight_generator
    resolve_ollama_generate_url set_cached_llm_client insert duration_string itoa has_suffix
Reach-IsBuilt_example =
    Reach-IsBuilt urls (resolved secrets asked start)
      (bytes "provider=ollama|model=llama3|timeout=15s|maxTokens=256|ollama.url=http://llm") local
      refl
