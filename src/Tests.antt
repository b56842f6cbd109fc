-- ===== src/Tests.antt =====
-- Small concrete inputs, on which the theorems are applied and the definitions are run. Numbers are
-- thousandths.
pub mod Sampling
pub mod Watching
pub mod Planning
pub mod Budgets
pub mod Insights
pub mod Setting
pub mod Advice
pub mod Hashing
pub mod Notifying
pub mod Breaking
pub mod Clients
pub mod Reconciling
pub mod Prompting
use capacity_planning_operat.Prelude.{ℕ, ◌*◌, Bool, true, false, List, [], ◌∷◌, Option, none, some}
use capacity_planning_operat.Prelude.Int.{ℤ, pos}
use capacity_planning_operat.Prelude.Text.{Str, bytes}
use capacity_planning_operat.Prelude.Float.{Milli}
use capacity_planning_operat.Analysis.RingBuffer.{Sample, RingBuffer, new_ring_buffer, push}
use capacity_planning_operat.Api.{PvcSummary, PvcRiskSummary}
use capacity_planning_operat.Metrics.{
  PvcMetricsClient, PvcUsage, mock_client, MockPvcMetricsClient, key_of,
}
use capacity_planning_operat.Watcher.{Watcher, PvcState, Pvc, default_sample_interval}
use capacity_planning_operat.Plan.Signals.{PvcRiskSignal}

abbrev pub milli : ℕ → Milli
milli n = some (pos n)

-- The n-th day, with n bytes used.
abbrev pub sample_at : ℕ → Sample
sample_at n = record { timestamp = pos (n * 86_400_000_000_000); used_bytes = pos n }

abbrev pub shop : Str
shop = bytes "shop"

abbrev pub disk : Str
disk = bytes "data"

abbrev pub claim : Pvc
claim = record { namespace = shop; name = disk; uid = bytes "u1"; requested = some (pos 100) }

abbrev pub mock : MockPvcMetricsClient
mock = record {
  usages = (key_of shop disk, record { used_bytes = pos 7; capacity_bytes = pos 0 }) ∷ [];
  range_data = [];
  failing = false;
}

abbrev pub state : PvcState
state = record {
  buffer = new_ring_buffer (pos 2);
  last_uid = bytes "u1";
  last_capacity_bytes = pos 100;
}

abbrev pub tracking : Watcher
tracking = record {
  metrics_client = some (mock_client mock);
  pvc_states = (key_of shop disk, state) ∷ [];
  retention = pos 2;
  sample_interval = default_sample_interval;
}

abbrev pub risk : Str → ℕ → PvcRiskSummary Milli
risk name growth = record {
  namespace = shop;
  name = name;
  workload_kind = [];
  workload_name = [];
  workload_namespace = [];
  used_bytes = pos 10;
  capacity_bytes = pos 100;
  usage_ratio = milli 100;
  weekly_growth_bytes_per_day = milli growth;
  daily_growth_bytes_per_day = milli growth;
  growth_acceleration = milli 0;
  confidence_r2 = milli 900;
  days_until_full = none;
  projected_full_at = none;
  llm_insight = [];
  alert_firing = false;
}

abbrev pub signal : Str → ℕ → PvcRiskSignal Milli
signal name growth = record {
  namespace = shop;
  name = name;
  used_bytes = pos 10;
  capacity_bytes = pos 100;
  usage_ratio = milli 100;
  alert_firing = false;
  confidence_r2 = milli 900;
  llm_insight = [];
  weekly_growth_bytes_per_day = milli growth;
  daily_growth_bytes_per_day = milli growth;
  growth_acceleration = milli 800;
  days_until_full = some (milli 5000);
  projected_full_at = none;
}

abbrev pub summary : Str → ℕ → PvcSummary Milli
summary name used = record {
  namespace = shop;
  name = name;
  capacity_bytes = pos 100;
  used_bytes = pos used;
  usage_ratio = milli used;
  growth_bytes_per_day = milli 10;
  days_until_full = some (milli 5000);
  confidence_r2 = milli 900;
  samples_count = 3;
  last_sample_time = none;
  llm_insight = [];
  last_llm_time = none;
  alert_firing = false;
}
