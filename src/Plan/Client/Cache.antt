-- ===== src/Plan/Client/Cache.antt =====
-- resolvePlanLLMClient with getCachedLLMClient and setCachedLLMClient: the client of a plan's settings,
-- new or from the cache.
use capacity_planning_operat.Prelude.{
  ◌≡◌, refl, sym, ap, inl, inr, true, false, Option, none, some, if◌then◌else◌, Bool-cases,
  Option-cases,
}
use capacity_planning_operat.Prelude.Text.{Str, bytes, is_empty, str_eq, str_eq_refl}
use capacity_planning_operat.Prelude.Dict.{Dict, lookup, insert, lookup-insert}
use capacity_planning_operat.Prelude.Fallible.{Fallible, ok, err}
use capacity_planning_operat.Prelude.Float.{Float64}
use capacity_planning_operat.Api.{LlmProviderSpec}
use capacity_planning_operat.Llm.{ProviderConfig, provider_disabled}
use capacity_planning_operat.Llm.Clients.{Generator, UrlLibrary, new_insight_generator}
use capacity_planning_operat.Plan.Insight.{default_llm_model_label}
use capacity_planning_operat.Plan.Client.{Secrets, build_llm_provider_config}

-- The cache, and the client, its provider and the label of its model, or an error.
pub record Resolved (F : Type 0) : Type 0 where
  pub cache : Dict (Generator F)
  pub result : Fallible (Option (Generator F) × Str × Str)

module _ {F : Type 0} where
  unfoldable pub get_cached_llm_client : Dict (Generator F) → Str → Option (Generator F)
  get_cached_llm_client cache key = if is_empty key then none else lookup key cache

  unfoldable pub set_cached_llm_client :
      Dict (Generator F) → Str → Option (Generator F) → Dict (Generator F)
  set_cached_llm_client cache key none = cache
  set_cached_llm_client cache key (some gen) = if is_empty key then cache else insert key gen cache

  abbrev pub answer :
      ProviderConfig F → Option (Generator F) → Fallible (Option (Generator F) × Str × Str)
  answer cfg gen = ok (gen, cfg.provider, default_llm_model_label cfg.model)

  abbrev pub keep_client :
      Dict (Generator F) → ProviderConfig F → Str → Fallible (Option (Generator F)) → Resolved F
  keep_client cache cfg key (err e) = record { cache = cache; result = err e }
  keep_client cache cfg key (ok gen) = record {
    cache = set_cached_llm_client cache key gen;
    result = answer cfg gen;
  }

module _ {F : Type 0} ⦃float : Float64 F⦄ (urls : UrlLibrary) where
  -- Behind a look into the cache.
  abbrev cached_or_new :
      Dict (Generator F) → ProviderConfig F → Str → Option (Generator F) → Resolved F
  cached_or_new cache cfg key (some gen) = record { cache = cache; result = answer cfg (some gen) }
  cached_or_new cache cfg key none = keep_client cache cfg key (new_insight_generator urls cfg)

  unfoldable pub with_config : Dict (Generator F) → Fallible (ProviderConfig F × Str) → Resolved F
  with_config cache (err e) = record { cache = cache; result = err e }
  with_config cache (ok (cfg, key)) =
      if str_eq cfg.provider provider_disabled
      then record { cache = cache; result = ok (none, bytes "disabled", bytes "n/a") }
      else cached_or_new cache cfg key (get_cached_llm_client cache key)

  unfoldable pub resolve_plan_llm_client :
      Secrets → Dict (Generator F) → LlmProviderSpec F → Resolved F
  resolve_plan_llm_client secrets cache spec =
      with_config cache (build_llm_provider_config secrets spec)

  get-set :
      (cache : Dict (Generator F)) (key : Str) (gen : Generator F)
      → is_empty key ≡ false
      → get_cached_llm_client (set_cached_llm_client cache key (some gen)) key ≡ some gen
  unfolding get_cached_llm_client set_cached_llm_client
  get-set cache key gen e = rw (e, lookup-insert key key gen cache, str_eq_refl key) refl

  set_no_key :
      (cache : Dict (Generator F)) (key : Str) (gen : Option (Generator F))
      → is_empty key ≡ true
      → set_cached_llm_client cache key gen ≡ cache
  unfolding set_cached_llm_client
  set_no_key cache key none e = refl
  set_no_key cache key (some gen) e = rw e refl

  set_none : (cache : Dict (Generator F)) (key : Str) → set_cached_llm_client cache key none ≡ cache
  unfolding set_cached_llm_client
  set_none cache key = refl

  -- A second look finds what the first one kept, or does the same again.
  keep_again :
      (cache : Dict (Generator F)) (cfg : ProviderConfig F) (key : Str)
      (made : Fallible (Option (Generator F)))
      → new_insight_generator urls cfg ≡ made
      → get_cached_llm_client cache key ≡ none
      → cached_or_new
          (keep_client cache cfg key made).cache
          cfg
          key
          (get_cached_llm_client (keep_client cache cfg key made).cache key)
        ≡ keep_client cache cfg key made
  keep_again cache cfg key (err e) m miss = rw (miss, m) refl
  keep_again cache cfg key (ok none) m miss =
      rw (set_none cache key, miss, m, set_none cache key) refl
  keep_again cache cfg key (ok (some gen)) m miss = elim (Bool-cases (is_empty key)) [
    | inl e ↦
        rw (set_no_key cache key (some gen) e, miss, m, set_no_key cache key (some gen) e) refl
    | inr e ↦ rw (get-set cache key gen e) refl
  ]

  with_config_again :
      (cache : Dict (Generator F)) (built : Fallible (ProviderConfig F × Str))
      → with_config (with_config cache built).cache built ≡ with_config cache built
  unfolding with_config
  with_config_again cache (err e) = refl
  with_config_again cache (ok (cfg, key)) =
      elim (Bool-cases (str_eq cfg.provider provider_disabled)) [
        | inl e ↦ rw e refl
        | inr e ↦ elim (Option-cases (get_cached_llm_client cache key)) [
          | inl miss ↦
              rw (e, miss) (keep_again cache cfg key (new_insight_generator urls cfg) refl miss)
          | inr (gen, hit) ↦ rw (e, hit, hit) refl
        ]
      ]

  -- While the settings and the secrets stay the same, resolving them again gives the same client or the
  -- same error, and changes nothing in the cache.
  pub resolve_plan_llm_client_again :
      (secrets : Secrets) (cache : Dict (Generator F)) (spec : LlmProviderSpec F)
      → resolve_plan_llm_client secrets (resolve_plan_llm_client secrets cache spec).cache spec
        ≡ resolve_plan_llm_client secrets cache spec
  unfolding resolve_plan_llm_client
  resolve_plan_llm_client_again secrets cache spec =
      with_config_again cache (build_llm_provider_config secrets spec)

  -- What was kept is found again.
  pub kept_again :
      (cache : Dict (Generator F)) (cfg : ProviderConfig F) (key : Str)
      (made : Fallible (Option (Generator F))) (gen : Generator F) (provider label : Str)
      → is_empty key ≡ false
      → (keep_client cache cfg key made).result ≡ ok (some gen, provider, label)
      → let kept = keep_client cache cfg key made in
        (get_cached_llm_client kept.cache key ≡ some gen) × (kept.result ≡ answer cfg (some gen))
  kept_again cache cfg key (err e) gen provider label filled h = absurd (cc)
  kept_again cache cfg key (ok none) gen provider label filled h = absurd (cc)
  kept_again cache cfg key (ok (some g)) gen provider label filled h =
      let same : g ≡ gen = cc in (rw (sym same) (get-set cache key g filled), rw same refl)

module _ {F : Type 0} ⦃float : Float64 F⦄ (urls others : UrlLibrary) where
  with_config_cached :
      (cache : Dict (Generator F)) (cfg : ProviderConfig F) (key : Str) (gen : Generator F)
      (provider label : Str)
      → is_empty key ≡ false
      → (with_config urls cache (ok (cfg, key))).result ≡ ok (some gen, provider, label)
      → with_config others (with_config urls cache (ok (cfg, key))).cache (ok (cfg, key))
        ≡ with_config urls cache (ok (cfg, key))
  unfolding with_config
  with_config_cached cache cfg key gen provider label filled h =
      elim (Bool-cases (str_eq cfg.provider provider_disabled)) [
        | inl e ↦ rw e refl
        | inr e ↦ elim (Option-cases (get_cached_llm_client cache key)) [
          | inl miss ↦
              let made = new_insight_generator urls cfg in
              let kept = keep_client cache cfg key made in
              let (hit, same) =
                kept_again urls cache cfg key made gen provider label filled (rw (e, miss) at h) in
              rw (e, miss, hit)
                (ap {B = Resolved F} (λ r. record { cache = kept.cache; result = r }) (sym same))
          | inr (g, hit) ↦ rw (e, hit, hit) refl
        ]
      ]

  -- A client that was resolved for settings that give a key is kept: while the settings and the secrets
  -- stay the same, resolving them again gives that client and the same cache, even with another library
  -- of addresses, with which a new client would be another one or could not be made.
  pub resolve_plan_llm_client_cached :
      (secrets : Secrets) (cache : Dict (Generator F)) (spec : LlmProviderSpec F)
      (cfg : ProviderConfig F) (key : Str) (gen : Generator F) (provider label : Str)
      → build_llm_provider_config secrets spec ≡ ok (cfg, key)
      → is_empty key ≡ false
      → (resolve_plan_llm_client urls secrets cache spec).result ≡ ok (some gen, provider, label)
      → resolve_plan_llm_client others secrets
          (resolve_plan_llm_client urls secrets cache spec).cache
          spec
        ≡ resolve_plan_llm_client urls secrets cache spec
  unfolding resolve_plan_llm_client
  resolve_plan_llm_client_cached secrets cache spec cfg key gen provider label built filled h =
      rw built (with_config_cached cache cfg key gen provider label filled (rw built at h))
