-- ===== src/Llm/Breaker/Requests.antt =====
-- What a request to the FastAPI client sends: nothing while the breaker is open, and the request itself
-- where it is closed and the backend is healthy.
use capacity_planning_operat.Prelude.{
  ℕ, suc, ◌^◌, ◌<◌, ◌≡◌, refl, inl, inr, Bool, true, false, List, [], ◌∷◌, none, arith, length,
  Bool-cases, ◌∙◌,
}
use mathlib.Core.Path.{subst}
use capacity_planning_operat.Prelude.Int.{ℤ, pos, ltb_ℤ}
use capacity_planning_operat.Prelude.Members.{Any, Any-append_right}
use capacity_planning_operat.Prelude.Text.{Str, is_empty, trim_space}
use capacity_planning_operat.Prelude.Fallible.{ok}
use capacity_planning_operat.Plan.Insight.{PvcContext}
use capacity_planning_operat.Llm.Clients.{FastApiInsightGenerator}
use capacity_planning_operat.Llm.Breaker.{
  Backend, Exchange, unbuilt, unanswered, broken, answered, Call, request, record_failure,
  clear_failures, is_before, is_healthy, probe_health, check_availability, fast_api_request, send,
  generate_insight, call_of,
}
use capacity_planning_operat.Llm.Breaker.Trace.{
  Event, failure, clearing, replay, failures_in_a_row, refuses, is_open, replay-is_open,
}

-- A request that can be built.
abbrev pub is_built : Exchange → Bool
is_built (unbuilt e) = false
is_built (unanswered e) = true
is_built (broken status e) = true
is_built (answered status body) = true

module _ {F : Type 0} (backend : Backend F) where
  refused_at_once :
      (g : FastApiInsightGenerator) (pvc : PvcContext F) (now later : ℤ)
      → refuses g now ≡ true
      → ((generate_insight backend g pvc now later).calls ≡ [])
        × ((generate_insight backend g pvc now later).generator ≡ g)
  unfolding generate_insight check_availability refuses
  refused_at_once g pvc now later h =
      let full : ltb_ℤ g.consecutive_fails g.failure_threshold ≡ false = ground (arith, h) in
      let early : is_before now g.degraded_until ≡ true = ground (arith, h) in
      rw (full, early) (refl, refl)

  available :
      (g : FastApiInsightGenerator) (now : ℤ)
      → refuses g now ≡ false
      → is_empty (trim_space g.health_url) ≡ false
      → is_healthy backend (backend.get g.health_url g.auth_token) ≡ true
      → (check_availability backend g now).result ≡ true
  unfolding check_availability probe_health refuses
  available g now h url well = elim (Bool-cases (ltb_ℤ g.consecutive_fails g.failure_threshold)) [
    | inl e ↦ rw e refl
    | inr e ↦
        let late : is_before now g.degraded_until ≡ false = ground (arith, h, e) in
        rw (e, late, url, well) refl
  ]

  -- The settings do not change.
  pub check_availability-url :
      (g : FastApiInsightGenerator) (now : ℤ)
      → ((check_availability backend g now).generator.url ≡ g.url)
        × ((check_availability backend g now).generator.auth_token ≡ g.auth_token)
  unfolding check_availability record_failure clear_failures
  check_availability-url g now = elim (Bool-cases (ltb_ℤ g.consecutive_fails g.failure_threshold)) [
    | inl e ↦ rw e (refl, refl)
    | inr e ↦ elim (Bool-cases (is_before now g.degraded_until)) [
      | inl f ↦ rw (e, f) (refl, refl)
      | inr f ↦ elim (Bool-cases (probe_health backend g).0) [
        | inl h ↦ rw (e, f, h) (refl, refl)
        | inr h ↦ rw (e, f, h) (refl, refl)
      ]
    ]
  ]

  call_of-Any :
      (x : Exchange) (c : Call) → is_built x ≡ true → Any (λ d. d ≡ c) (call_of backend x c)
  call_of-Any (unbuilt e) c h = absurd (ground arith)
  call_of-Any (unanswered e) c h = inl refl
  call_of-Any (broken s e) c h = inl refl
  call_of-Any (answered s b) c h = inl refl

  sent :
      (g : FastApiInsightGenerator) (pvc : PvcContext F) (now later : ℤ) (payload : Str)
      → (check_availability backend g now).result ≡ true
      → backend.marshal (fast_api_request backend pvc) ≡ ok payload
      → is_built (backend.post g.url g.auth_token payload) ≡ true
      → Any (λ c. c ≡ request g.url payload) (generate_insight backend g pvc now later).calls
  unfolding generate_insight send
  sent g pvc now later payload available made built =
      let (url, token) = check_availability-url g now in
      rw (available, made, url, token)
        (Any-append_right (λ c. c ≡ request g.url payload) _ _
          (call_of-Any (backend.post g.url g.auth_token payload) (request g.url payload) built))

  -- A client of positive threshold that starts without failures, with fewer than 2^63 events behind it,
  -- sends nothing at all, not even a probe, and counts nothing, while a run of failures as long as the
  -- threshold is less than a cooldown old.
  pub generate_insight_open :
      (k : ℕ) (g : FastApiInsightGenerator) (es : List Event) (pvc : PvcContext F) (now later : ℤ)
      → g.failure_threshold ≡ pos (suc k)
      → g.consecutive_fails ≡ pos 0
      → g.degraded_until ≡ none
      → length es < 2 ^ 63
      → is_open (suc k) g.cooldown (failures_in_a_row [] es) now ≡ true
      → ((generate_insight backend (replay g es) pvc now later).calls ≡ [])
        × ((generate_insight backend (replay g es) pvc now later).generator ≡ replay g es)
  generate_insight_open k g es pvc now later threshold count until few opened =
      refused_at_once (replay g es) pvc now later
        (replay-is_open k g es now threshold count until few ∙ opened)

  pub replay_settings :
      (g : FastApiInsightGenerator) (es : List Event)
      → ((replay g es).url ≡ g.url)
        × ((replay g es).auth_token ≡ g.auth_token)
        × ((replay g es).health_url ≡ g.health_url)
  unfolding replay record_failure clear_failures
  replay_settings g [] = (refl, refl, refl)
  replay_settings g (failure t ∷ es) = replay_settings (record_failure g t) es
  replay_settings g (clearing ∷ es) = replay_settings (clear_failures g) es

  -- A client of positive threshold that starts without failures, with fewer than 2^63 events behind it,
  -- sends the request if the breaker is not open by these events, the client has a health address at
  -- which the backend answers with success, the payload marshals and the request can be built.
  pub generate_insight_closed :
      (k : ℕ) (g : FastApiInsightGenerator) (es : List Event) (pvc : PvcContext F) (now later : ℤ)
      (payload : Str)
      → g.failure_threshold ≡ pos (suc k)
      → g.consecutive_fails ≡ pos 0
      → g.degraded_until ≡ none
      → length es < 2 ^ 63
      → is_open (suc k) g.cooldown (failures_in_a_row [] es) now ≡ false
      → is_empty (trim_space g.health_url) ≡ false
      → is_healthy backend (backend.get g.health_url g.auth_token) ≡ true
      → backend.marshal (fast_api_request backend pvc) ≡ ok payload
      → is_built (backend.post g.url g.auth_token payload) ≡ true
      → Any
          (λ c. c ≡ request g.url payload)
          (generate_insight backend (replay g es) pvc now later).calls
  generate_insight_closed k g es pvc now later payload threshold count until few closed probed well
        made built =
      let (url, token, health) = replay_settings g es in
      let free = replay-is_open k g es now threshold count until few ∙ closed in
      let ready = available (replay g es) now free (rw health probed) (rw (health, token) well) in
      subst
        (λ u.
          Any (λ c. c ≡ request u payload)
            (generate_insight backend (replay g es) pvc now later).calls)
        url (sent (replay g es) pvc now later payload ready made (rw (url, token) built))
