-- ===== src/Llm/Breaker.antt =====
-- internal/llm/fastapi_client.go: the FastAPI client with its circuit breaker. What HTTP, the clock and
-- the JSON library answer is a parameter. The two methods that hold the lock while they write are one
-- step each; GenerateInsight is the sequence of such steps that it makes.
pub mod Trace
pub mod Requests
pub mod Admission
pub mod Events
use capacity_planning_operat.Prelude.{
  ℕ, ◌*◌, Bool, true, false, ◌&&◌, ◌||◌, not, List, [], ◌∷◌, ◌++◌, Option, none, some,
  if◌then◌else◌, length, take,
}
use capacity_planning_operat.Prelude.Int.{ℤ, pos, ◌+ℤ◌, add64, ltb_ℤ, leb_ℤ}
use capacity_planning_operat.Prelude.Text.{Str, bytes, is_empty, trim_space}
use capacity_planning_operat.Prelude.Print.{show_int}
use capacity_planning_operat.Prelude.Fallible.{Fallible, ok, err}
use capacity_planning_operat.Plan.Insight.{PvcContext}
use capacity_planning_operat.Llm.Clients.{FastApiInsightGenerator}

pub record FastApiInsightRequest (F : Type 0) : Type 0 where
  pub namespace : Str
  pub name : Str
  pub used_bytes : ℤ
  pub capacity_bytes : ℤ
  pub growth_bytes_per_day : F
  pub confidence_r2 : F
  pub alert_firing : Bool
  pub samples_count : ℕ
  pub days_until_full : Option F

pub record FastApiInsightResponse : Type 0 where
  pub insight : Str
  pub text : Str
  pub output : Str

-- How a request ends: it cannot be built, it is not answered, its answer breaks off, or it is answered
-- with a status and a body.
pub data Exchange : Type 0 where
  unbuilt : Str → Exchange
  unanswered : Str → Exchange
  broken : ℤ → Str → Exchange
  answered : ℤ → Str → Exchange

-- The bearer token is empty where no header is set.
pub record Backend (F : Type 0) : Type 0 where
  pub marshal : FastApiInsightRequest F → Fallible Str
  pub post : (url token payload : Str) → Exchange
  pub get : (url token : Str) → Exchange
  pub unmarshal : Str → Fallible FastApiInsightResponse

-- What the client sends: a probe of its health address, or a request to its address.
pub data Call : Type 0 where
  probe : Str → Call
  request : Str → Str → Call

pub record Exchanged (A : Type 0) : Type 0 where
  pub generator : FastApiInsightGenerator
  pub result : A
  pub calls : List Call

unfoldable pub record_failure : FastApiInsightGenerator → ℤ → FastApiInsightGenerator
record_failure g now =
    let fails = add64 g.consecutive_fails (pos 1) in
    record g {
      consecutive_fails = fails;
      degraded_until =
          if leb_ℤ g.failure_threshold fails then some (now +ℤ g.cooldown) else g.degraded_until;
    }

unfoldable pub clear_failures : FastApiInsightGenerator → FastApiInsightGenerator
clear_failures g = record g { consecutive_fails = pos 0; degraded_until = none }

-- `now.Before(cooldownUntil)`; no instant is before the zero time.
abbrev pub is_before : ℤ → Option ℤ → Bool
is_before now none = false
is_before now (some until) = ltb_ℤ now until

abbrev is_success : ℤ → Bool
is_success status = leb_ℤ (pos 200) status && ltb_ℤ status (pos 300)

module _ {F : Type 0} (backend : Backend F) where
  abbrev pub is_healthy : Exchange → Bool
  is_healthy (unbuilt e) = false
  is_healthy (unanswered e) = false
  is_healthy (broken status e) = is_success status
  is_healthy (answered status body) = is_success status

  abbrev call_of : Exchange → Call → List Call
  call_of (unbuilt e) c = []
  call_of (unanswered e) c = c ∷ []
  call_of (broken status e) c = c ∷ []
  call_of (answered status body) c = c ∷ []

  unfoldable pub probe_health : FastApiInsightGenerator → Bool × List Call
  probe_health g =
      let x = backend.get g.health_url g.auth_token in
      if is_empty (trim_space g.health_url)
      then (false, [])
      else (is_healthy x, call_of x (probe g.health_url))

  unfoldable pub check_availability : FastApiInsightGenerator → ℤ → Exchanged Bool
  check_availability g now =
      let (healthy, calls) = probe_health g in
      if ltb_ℤ g.consecutive_fails g.failure_threshold
      then record { generator = g; result = true; calls = [] }
      else (if is_before now g.degraded_until
          then record { generator = g; result = false; calls = [] }
          else (if healthy
              then record { generator = clear_failures g; result = true; calls = calls }
              else record { generator = record_failure g now; result = false; calls = calls }))

  abbrev first_text : FastApiInsightResponse → Str
  first_text r =
      if is_empty (trim_space r.insight)
      then (if is_empty (trim_space r.text) then trim_space r.output else trim_space r.text)
      else trim_space r.insight

  abbrev read_text : Fallible FastApiInsightResponse → Fallible Str
  read_text (err e) = err e
  read_text (ok r) =
      if is_empty (first_text r)
      then err (bytes "fastapi returned empty insight")
      else ok (first_text r)

  -- The text of an answer, or the error that counts as a failure.
  abbrev pub read_answer : Exchange → Fallible Str
  read_answer (unbuilt e) = err e
  read_answer (unanswered e) = err e
  read_answer (broken status e) = err e
  read_answer (answered status body) =
      let seen = take (2 * 1024 * 1024) body in
      if is_success status
      then read_text (backend.unmarshal seen)
      else err
          (bytes "fastapi returned status " ++ show_int status ++ bytes ": " ++ trim_space seen)

  abbrev counted : FastApiInsightGenerator → ℤ → Exchange → Fallible Str → FastApiInsightGenerator
  counted g now (unbuilt e) r = g
  counted g now x (err e) = record_failure g now
  counted g now x (ok text) = clear_failures g

  abbrev fast_api_request : PvcContext F → FastApiInsightRequest F
  fast_api_request pvc = record {
    namespace = pvc.namespace;
    name = pvc.name;
    used_bytes = pvc.used_bytes;
    capacity_bytes = pvc.capacity_bytes;
    growth_bytes_per_day = pvc.growth.growth_bytes_per_day;
    confidence_r2 = pvc.growth.confidence_r2;
    alert_firing = pvc.alert_firing;
    samples_count = length pvc.samples;
    days_until_full = pvc.growth.days_until_full;
  }

  -- From the payload on; `later` is the time behind the answer.
  unfoldable pub send :
      FastApiInsightGenerator → ℤ → List Call → Fallible Str → Exchanged (Fallible Str)
  send g later before (err e) = record { generator = g; result = err e; calls = before }
  send g later before (ok payload) =
      let x = backend.post g.url g.auth_token payload in
      record {
        generator = counted g later x (read_answer x);
        result = read_answer x;
        calls = before ++ call_of x (request g.url payload);
      }

  unfoldable pub generate_insight :
      FastApiInsightGenerator → PvcContext F → ℤ → ℤ → Exchanged (Fallible Str)
  generate_insight g pvc now later =
      let checked = check_availability g now in
      if checked.result
      then send checked.generator later checked.calls (backend.marshal (fast_api_request pvc))
      else record {
        generator = checked.generator;
        result = err (bytes "fastapi is in degraded mode");
        calls = checked.calls;
      }
