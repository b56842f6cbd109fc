-- ===== src/Tests/Reconciling.antt =====
-- A request for a plan of one volume, and the gauges behind an export.
use capacity_planning_operat.Prelude.{
  ◌≡◌, refl, true, false, [], ◌∷◌, ◌++◌, none, some, inr, if◌then◌else◌,
}
use capacity_planning_operat.Prelude.Int.{pos}
use capacity_planning_operat.Prelude.Text.{bytes, str_eq}
use capacity_planning_operat.Prelude.Sort.{sort_slice, insert_sorted}
use capacity_planning_operat.Prelude.Print.{quoted}
use capacity_planning_operat.Prelude.Float.{Milli, milli_float, nought}
use capacity_planning_operat.Operator.{value_of, among}
use capacity_planning_operat.Metrics.{mock_client}
use capacity_planning_operat.Api.{PvcAnomaly}
use capacity_planning_operat.Watcher.Reconcile.{not_found}
use capacity_planning_operat.Plan.Active.{is_active_plan, pick_active_plan}
use capacity_planning_operat.Plan.Insight.{error}
use capacity_planning_operat.Plan.Export.{anomaly_metric, export_plan}
use capacity_planning_operat.Plan.Export.Gauges.{keys_of, cleared_keys, value_of-export_plan}
use capacity_planning_operat.Plan.Reconcile.{Environment, Operator}
use capacity_planning_operat.Plan.Reconcile.Loop.{reconcile_plan}
use capacity_planning_operat.Plan.Reconcile.Consistent.{IsWritten, reconcile_plan-IsWritten}
use capacity_planning_operat.Tests.{shop, disk, claim, mock, tracking, milli, summary}
use capacity_planning_operat.Tests.Clients.{urls, secrets}
use capacity_planning_operat.Tests.Insights.{plan}

abbrev environment : Environment Milli
environment = record {
  injected = none;
  default_client = some (mock_client mock);
  default_is_prometheus = false;
  default_retention = pos 720;
  backfill_configured = false;
  backfill_successful = pos 0;
  backfill_error = [];
  secrets = secrets;
  urls = urls;
  client_of = λ g. record {
    insight = λ c. error false;
    takes_prompts = true;
    risk_answer = error false;
    budget_answer = error false;
  };
  new_prometheus_client = λ url. mock_client mock;
  list_plans = inr (plan (bytes "main") 5 ∷ []);
  list_pvcs = λ ns. some (claim ∷ []);
  list_pods = λ ns. some [];
  get_replica_set = λ ns name. not_found;
  get_job = λ ns name. not_found;
  update = λ p. none;
  set_status_condition = λ cs c. cs ++ (c ∷ []);
  parse_quantity = λ s. none;
  sha256_hex = λ s. s;
  quote = quoted;
  now = pos 1_000;
  finished = pos 1_001;
  around = λ key. (pos 1_000, pos 1_001);
}

abbrev operator : Operator Milli
operator = record { watcher = tracking; clients = []; series = [] }

reconcile_plan-IsWritten_example :
    IsWritten environment
      (plan (bytes "main") 5)
      (reconcile_plan environment (plan (bytes "main") 5) operator)
unfolding is_active_plan pick_active_plan sort_slice insert_sorted str_eq
reconcile_plan-IsWritten_example =
    reconcile_plan-IsWritten environment (plan (bytes "main") 5) operator (bytes "main") refl

abbrev jump_of_disk : PvcAnomaly Milli
jump_of_disk = record {
  namespace = shop;
  name = disk;
  anomaly_type = bytes "sudden_growth";
  severity = bytes "warning";
  message = [];
  time = pos 5;
  workload_kind = [];
  workload_name = [];
  weekly_growth_bytes_per_day = milli 5;
  daily_growth_bytes_per_day = milli 9;
  growth_acceleration = milli 800;
  confidence_r2 = milli 900;
}

value_of-export_plan_example :
    value_of
      (anomaly_metric ∷ shop ∷ disk ∷ bytes "sudden_growth" ∷ [])
      (export_plan [] (summary disk 10 ∷ []) [] (jump_of_disk ∷ []) [] [] [])
    ≡ (if among
          (anomaly_metric ∷ shop ∷ disk ∷ bytes "sudden_growth" ∷ [])
          (keys_of (jump_of_disk ∷ []))
        then some (milli_float.lit 1 1)
        else (if among
              (anomaly_metric ∷ shop ∷ disk ∷ bytes "sudden_growth" ∷ [])
              (cleared_keys (summary disk 10 ∷ []))
            then some nought
            else value_of (anomaly_metric ∷ shop ∷ disk ∷ bytes "sudden_growth" ∷ []) []))
value_of-export_plan_example =
    value_of-export_plan (shop ∷ disk ∷ bytes "sudden_growth" ∷ []) [] (summary disk 10 ∷ []) []
      (jump_of_disk ∷ []) [] [] []
