-- ===== src/Plan/Client/Provenance.antt =====
-- Where a client of the cache comes from.
use capacity_planning_operat.Prelude.{
  ◌≡◌, refl, ◌⊎◌, inl, inr, [], Option, none, some, arith, Bool-cases, Option-cases,
}
use mathlib.Core.Path.{subst}
use mathlib.Core.Option.{some-injective}
use capacity_planning_operat.Prelude.Text.{Str, is_empty, str_eq, str_eq_iff}
use capacity_planning_operat.Prelude.Dict.{Dict, lookup, lookup-insert}
use capacity_planning_operat.Prelude.Fallible.{Fallible, ok, err}
use capacity_planning_operat.Prelude.Float.{Float64}
use capacity_planning_operat.Api.{LlmProviderSpec}
use capacity_planning_operat.Llm.{ProviderConfig, provider_disabled}
use capacity_planning_operat.Llm.Clients.{Generator, UrlLibrary, new_insight_generator}
use capacity_planning_operat.Plan.Client.{Secrets, build_llm_provider_config}
use capacity_planning_operat.Plan.Client.Cache.{
  resolve_plan_llm_client, with_config, get_cached_llm_client, set_cached_llm_client, keep_client,
}

module _ {F : Type 0} ⦃float : Float64 F⦄ (urls : UrlLibrary) where
  -- Some settings, with the secrets of some time, have the key and make the client.
  pub data IsBuilt : Str → Generator F → Type 0 where
    built :
        (secrets : Secrets) (spec : LlmProviderSpec F) (cfg : ProviderConfig F) (key : Str)
        (gen : Generator F)
        → build_llm_provider_config secrets spec ≡ ok (cfg, key)
        → new_insight_generator urls cfg ≡ ok (some gen)
        → IsBuilt key gen

  -- The caches that calls can lead to, each with the settings and the secrets of its time.
  pub data Reach : Dict (Generator F) → Type 0 where
    start : Reach []
    resolved :
        {cache : Dict (Generator F)} (secrets : Secrets) (spec : LlmProviderSpec F)
        → Reach cache
        → Reach (resolve_plan_llm_client urls secrets cache spec).cache

  keep-cases :
      (cache : Dict (Generator F)) (cfg : ProviderConfig F) (key : Str)
      (made : Fallible (Option (Generator F)))
      → new_insight_generator urls cfg ≡ made
      → ((keep_client cache cfg key made).cache ≡ cache)
        ⊎ ((c : ProviderConfig F) × (k : Str) × (gen : Generator F) × (Path
              (Fallible (ProviderConfig F × Str))
              (ok (cfg, key))
              (ok (c, k)))
            × (new_insight_generator urls c ≡ ok (some gen))
            × ((keep_client cache cfg key made).cache ≡ set_cached_llm_client cache k (some gen)))
  unfolding set_cached_llm_client
  keep-cases cache cfg key (err e) m = inl refl
  keep-cases cache cfg key (ok none) m = inl refl
  keep-cases cache cfg key (ok (some gen)) m = inr (cfg, key, gen, refl, m, refl)

  -- A configuration that was built makes a client that is kept, or the cache stays.
  with_config-cases :
      (cache : Dict (Generator F)) (given : Fallible (ProviderConfig F × Str))
      → ((with_config urls cache given).cache ≡ cache)
        ⊎ ((cfg : ProviderConfig F) × (key : Str) × (gen : Generator F) × (given ≡ ok (cfg, key))
            × (new_insight_generator urls cfg ≡ ok (some gen))
            × ((with_config urls cache given).cache ≡ set_cached_llm_client cache key (some gen)))
  unfolding with_config
  with_config-cases cache (err e) = inl refl
  with_config-cases cache (ok (cfg, key)) =
      elim (Bool-cases (str_eq cfg.provider provider_disabled)) [
        | inl e ↦ inl (rw e refl)
        | inr e ↦ elim (Option-cases (get_cached_llm_client cache key)) [
          | inl miss ↦ rw (e, miss) (keep-cases cache cfg key (new_insight_generator urls cfg) refl)
          | inr (gen, hit) ↦ inl (rw (e, hit) refl)
        ]
      ]

  none≢some : {g : Generator F} → ¬ (none ≡ some g)
  none≢some e = ground (arith, e)

  set-IsBuilt :
      (cache : Dict (Generator F)) (key : Str) (gen : Generator F) (k : Str) (g : Generator F)
      → IsBuilt key gen
      → (get_cached_llm_client cache k ≡ some g → IsBuilt k g)
      → get_cached_llm_client (set_cached_llm_client cache key (some gen)) k ≡ some g
      → IsBuilt k g
  unfolding get_cached_llm_client set_cached_llm_client
  set-IsBuilt cache key gen k g b old found = elim (Bool-cases (is_empty key)) [
    | inl e ↦ old (rw e at found)
    | inr e ↦ elim (Bool-cases (is_empty k)) [
      | inl f ↦ absurd (none≢some (rw f at found))
      | inr f ↦ elim (Bool-cases (str_eq key k)) [
        | inl s ↦
            let same : gen ≡ g =
              some-injective _ _ (rw (e, f, lookup-insert key k gen cache, s) at found) in
            subst (λ h. IsBuilt k h) same (subst (λ j. IsBuilt j gen) ((str_eq_iff key k).0 s) b)
        | inr s ↦ old (rw f (rw (e, f, lookup-insert key k gen cache, s) at found))
      ]
    ]
  ]

  with_config-IsBuilt :
      (secrets : Secrets) (spec : LlmProviderSpec F) (cache : Dict (Generator F)) (k : Str)
      (g : Generator F)
      → (get_cached_llm_client cache k ≡ some g → IsBuilt k g)
      → get_cached_llm_client (resolve_plan_llm_client urls secrets cache spec).cache k ≡ some g
      → IsBuilt k g
  unfolding resolve_plan_llm_client
  with_config-IsBuilt secrets spec cache k g old found =
      elim (with_config-cases cache (build_llm_provider_config secrets spec)) [
        | inl e ↦ old (rw e at found)
        | inr (cfg, key, gen, b, m, e) ↦
            set-IsBuilt cache key gen k g (built secrets spec cfg key gen b m) old (rw e at found)
      ]

  -- After any resolutions, of whatever settings and secrets, each client that the cache has for a key was
  -- made from settings of that key.
  pub Reach-IsBuilt :
      {cache : Dict (Generator F)}
      → Reach cache
      → (key : Str) (gen : Generator F) → get_cached_llm_client cache key ≡ some gen
      → IsBuilt key gen
  unfolding get_cached_llm_client lookup
  Reach-IsBuilt start key gen found = absurd (ground (arith, found))
  Reach-IsBuilt (resolved {cache} secrets spec r) key gen found =
      with_config-IsBuilt secrets spec cache key gen (Reach-IsBuilt r key gen) found
