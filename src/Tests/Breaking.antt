-- ===== src/Tests/Breaking.antt =====
-- The circuit breaker at a client with a threshold of two failures and a cooldown of a minute.
use capacity_planning_operat.Prelude.{
  ◌≡◌, refl, false, List, [], ◌∷◌, ◌++◌, none, arith, if◌then◌else◌,
}
use capacity_planning_operat.Prelude.Int.{pos, ◌+ℤ◌}
use capacity_planning_operat.Prelude.Members.{Any}
use capacity_planning_operat.Prelude.Text.{bytes, trim_space}
use capacity_planning_operat.Prelude.Fallible.{ok}
use capacity_planning_operat.Prelude.Float.{Milli, milli_float}
use capacity_planning_operat.Plan.Insight.{PvcContext}
use capacity_planning_operat.Llm.Clients.{FastApiInsightGenerator}
use capacity_planning_operat.Llm.Breaker.{
  Backend, answered, request, check_availability, generate_insight,
}
use capacity_planning_operat.Llm.Breaker.Trace.{
  Event, failure, clearing, replay, failures_in_a_row, is_open,
}
use capacity_planning_operat.Llm.Breaker.Requests.{generate_insight_open, generate_insight_closed}
use capacity_planning_operat.Llm.Breaker.Admission.{admits, is_well, check_availability-admits}
use capacity_planning_operat.Llm.Breaker.Events.{
  probe_events, is_admitted, sent_events, generate_insight-replay,
}
use capacity_planning_operat.Tests.{shop, disk, milli}

abbrev client : FastApiInsightGenerator
client = record {
  url = bytes "http://llm/insight";
  health_url = bytes "http://llm/healthz";
  auth_token = [];
  tls_skip_verify = false;
  timeout = pos 1000;
  failure_threshold = pos 2;
  cooldown = pos 60;
  consecutive_fails = pos 0;
  degraded_until = none;
}

abbrev events : List Event
events = failure (pos 1) ∷ clearing ∷ failure (pos 5) ∷ failure (pos 9) ∷ []

abbrev context : PvcContext Milli
context = record {
  namespace = shop;
  name = disk;
  growth = record {
    growth_bytes_per_day = milli 5;
    confidence_r2 = milli 900;
    days_until_full = none;
  };
  used_bytes = pos 10;
  capacity_bytes = pos 100;
  alert_firing = false;
  samples = [];
}

abbrev backend : Backend Milli
backend = record {
  marshal = λ r. ok (bytes "{}");
  post = λ url token payload. answered (pos 200) [];
  get = λ url token. answered (pos 200) [];
  unmarshal = λ s. ok (record { insight = bytes " grows "; text = []; output = [] });
}

check_availability-admits_example :
    (check_availability backend (replay client events) (pos 30)).result
    ≡ admits 2 (pos 60) (failures_in_a_row [] events) (pos 30) (is_well backend client)
check_availability-admits_example =
    check_availability-admits backend 1 client events (pos 30) refl refl refl (omega arith)

generate_insight-replay_example :
    let out = generate_insight backend client context (pos 30) (pos 31) in
    let well = is_well backend client in
    out.generator
    ≡ replay client (
        probe_events client (pos 30) well
        ++ (if is_admitted client (pos 30) well
            then sent_events backend client (pos 31) (ok (bytes "{}")) out.result
            else []))
generate_insight-replay_example = generate_insight-replay backend client context (pos 30) (pos 31)

generate_insight_open_example :
    ((generate_insight backend (replay client events) context (pos 30) (pos 31)).calls ≡ [])
    × ((generate_insight backend (replay client events) context (pos 30) (pos 31)).generator
        ≡ replay client events)
unfolding is_open failures_in_a_row ◌+ℤ◌
generate_insight_open_example =
    generate_insight_open backend 1 client events context (pos 30) (pos 31) refl refl refl
      (omega arith) refl

generate_insight_closed_example :
    Any
      (λ c. c ≡ request (bytes "http://llm/insight") (bytes "{}"))
      (generate_insight backend (replay client events) context (pos 69) (pos 70)).calls
unfolding is_open failures_in_a_row ◌+ℤ◌ trim_space
generate_insight_closed_example =
    generate_insight_closed backend 1 client events context (pos 69) (pos 70) (bytes "{}") refl refl
      refl (omega arith) refl refl refl refl refl
