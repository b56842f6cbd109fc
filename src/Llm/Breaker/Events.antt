-- ===== src/Llm/Breaker/Events.antt =====
-- What a request to the FastAPI client adds to the breaker's history.
use capacity_planning_operat.Prelude.{
  ◌≡◌, refl, ◌∙◌, sym, ap, inl, inr, Bool, false, ◌&&◌, ◌||◌, not, List, [], ◌∷◌, ◌++◌, Option,
  none, some, Bool-cases, if◌then◌else◌,
}
use capacity_planning_operat.Prelude.Int.{ℤ, ltb_ℤ}
use capacity_planning_operat.Prelude.Text.{Str}
use capacity_planning_operat.Prelude.Fallible.{Fallible, ok, err}
use capacity_planning_operat.Plan.Insight.{PvcContext}
use capacity_planning_operat.Llm.Clients.{FastApiInsightGenerator}
use capacity_planning_operat.Llm.Breaker.{
  Backend, Exchange, unbuilt, unanswered, broken, answered, Call, record_failure, clear_failures,
  is_before, check_availability, fast_api_request, send, generate_insight, counted, read_answer,
}
use capacity_planning_operat.Llm.Breaker.Trace.{Event, failure, clearing, replay}
use capacity_planning_operat.Llm.Breaker.Requests.{check_availability-url}
use capacity_planning_operat.Llm.Breaker.Admission.{is_well, probe_health-is_well}

replay-append :
    (g : FastApiInsightGenerator) (es fs : List Event)
    → replay g (es ++ fs) ≡ replay (replay g es) fs
unfolding replay
replay-append g [] fs = refl
replay-append g (failure t ∷ es) fs = replay-append (record_failure g t) es fs
replay-append g (clearing ∷ es) fs = replay-append (clear_failures g) es fs

-- Before the end of the cooldown.
abbrev pub is_cooling : ℤ → Option ℤ → Bool
is_cooling now none = false
is_cooling now (some until) = ltb_ℤ now until

is_before-is_cooling : (now : ℤ) (o : Option ℤ) → is_before now o ≡ is_cooling now o
is_before-is_cooling now none = refl
is_before-is_cooling now (some until) = refl

-- A probe that is made after the cooldown is a clearing or a failure, by the backend's health.
abbrev pub probe_events : FastApiInsightGenerator → ℤ → Bool → List Event
probe_events g now well =
    if ltb_ℤ g.consecutive_fails g.failure_threshold || is_cooling now g.degraded_until
    then []
    else (if well then clearing ∷ [] else failure now ∷ [])

abbrev pub is_admitted : FastApiInsightGenerator → ℤ → Bool → Bool
is_admitted g now well =
    ltb_ℤ g.consecutive_fails g.failure_threshold || (not (is_cooling now g.degraded_until) && well)

-- A request that was built is a clearing if its result is a text, and a failure if it is an error.
abbrev answer_events : ℤ → Exchange → Fallible Str → List Event
answer_events later (unbuilt e) result = []
answer_events later (unanswered e) (ok t) = clearing ∷ []
answer_events later (unanswered e) (err e') = failure later ∷ []
answer_events later (broken s e) (ok t) = clearing ∷ []
answer_events later (broken s e) (err e') = failure later ∷ []
answer_events later (answered s b) (ok t) = clearing ∷ []
answer_events later (answered s b) (err e) = failure later ∷ []

module _ {F : Type 0} (backend : Backend F) where
  -- Without a payload there is no request.
  abbrev pub sent_events : FastApiInsightGenerator → ℤ → Fallible Str → Fallible Str → List Event
  sent_events g later (err e) result = []
  sent_events g later (ok payload) result =
      answer_events later (backend.post g.url g.auth_token payload) result

  counted-replay :
      (g : FastApiInsightGenerator) (later : ℤ) (x : Exchange) (r : Fallible Str)
      → counted backend g later x r ≡ replay g (answer_events later x r)
  unfolding replay
  counted-replay g later (unbuilt e) r = refl
  counted-replay g later (unanswered e) (err t) = refl
  counted-replay g later (unanswered e) (ok t) = refl
  counted-replay g later (broken s e) (err t) = refl
  counted-replay g later (broken s e) (ok t) = refl
  counted-replay g later (answered s b) (err t) = refl
  counted-replay g later (answered s b) (ok t) = refl

  send-replay :
      (g : FastApiInsightGenerator) (later : ℤ) (before : List Call) (payload : Fallible Str)
      → let out = send backend g later before payload in
        out.generator ≡ replay g (sent_events g later payload out.result)
  unfolding send replay
  send-replay g later before (err e) = refl
  send-replay g later before (ok payload) =
      let x = backend.post g.url g.auth_token payload in
      counted-replay g later x (read_answer backend x)

  -- What the check does to the breaker, and whether it lets the request through.
  check_availability-replay :
      (g : FastApiInsightGenerator) (now : ℤ)
      → ((check_availability backend g now).generator
          ≡ replay g (probe_events g now (is_well backend g)))
        × ((check_availability backend g now).result ≡ is_admitted g now (is_well backend g))
  unfolding check_availability replay
  check_availability-replay g now =
      let early = is_before-is_cooling now g.degraded_until in
      elim (Bool-cases (ltb_ℤ g.consecutive_fails g.failure_threshold)) [
        | inl e ↦ rw e (refl, refl)
        | inr e ↦ elim (Bool-cases (is_cooling now g.degraded_until)) [
          | inl f ↦ rw (e, early, f) (refl, refl)
          | inr f ↦ elim (Bool-cases (is_well backend g)) [
            | inl h ↦ rw (e, early, f, probe_health-is_well backend g, h) (refl, refl)
            | inr h ↦ rw (e, early, f, probe_health-is_well backend g, h) (refl, refl)
          ]
        ]
      ]

  -- Whatever the backend answers, a request leaves the breaker as these events do: a probe, made with
  -- enough failures behind the cooldown, is a clearing if the backend is healthy and else a failure;
  -- then a request that is let through, marshals and can be built is a clearing if a text comes of it
  -- and else a failure.
  pub generate_insight-replay :
      (g : FastApiInsightGenerator) (pvc : PvcContext F) (now later : ℤ)
      → let out = generate_insight backend g pvc now later in
        let well = is_well backend g in
        let payload = backend.marshal (fast_api_request backend pvc) in
        out.generator
        ≡ replay g (
            probe_events g now well
            ++ (if is_admitted g now well then sent_events g later payload out.result else []))
  unfolding generate_insight replay
  generate_insight-replay g pvc now later =
      let checked = check_availability backend g now in
      let well = is_well backend g in
      let payload = backend.marshal (fast_api_request backend pvc) in
      let (e, admitted) = check_availability-replay g now in
      let (url, token) = check_availability-url backend g now in
      elim (Bool-cases (is_admitted g now well)) [
        | inl r ↦
            let out = send backend checked.generator later checked.calls payload in
            rw (admitted, r)
              (send-replay checked.generator later checked.calls payload
                ∙ ap (replay checked.generator)
                    (sent_events_url checked.generator later payload out.result url token)
                ∙ ap (λ h. replay h (sent_events g later payload out.result)) e
                ∙ sym (
                    replay-append g (probe_events g now well)
                      (sent_events g later payload out.result)))
        | inr r ↦ rw (admitted, r) (e ∙ sym (replay-append g (probe_events g now well) []))
      ]
    where
      sent_events_url :
          (h : FastApiInsightGenerator) (later : ℤ) (payload result : Fallible Str)
          → h.url ≡ g.url
          → h.auth_token ≡ g.auth_token
          → sent_events h later payload result ≡ sent_events g later payload result
      sent_events_url h later (err e) result u t = refl
      sent_events_url h later (ok payload) result u t = rw (u, t) refl
