-- ===== src/Watcher.antt =====
-- internal/controller/pvcwatcher_controller.go: the half of the operator that collects samples.
pub mod Reconcile
pub mod Invariant
pub mod Reach
pub mod Samples
pub mod Cleanup
-- The state and the methods on it are here; the handlers are in `Reconcile`.
use capacity_planning_operat.Prelude.{
  ℕ, ◌-◌, ◌*◌, ◌+◌, ◌≡◌, Bool, true, false, List, [], ◌∷◌, ◌++◌, Option, none, some, ltb, ◌==◌,
  if◌then◌else◌, length, drop, map,
}
use capacity_planning_operat.Prelude.Int.{ℤ, pos, ltb_ℤ, leb_ℤ, eqb_ℤ, pos_part}
use capacity_planning_operat.Prelude.Text.{Str, bytes, str_eq}
use capacity_planning_operat.Prelude.Dict.{Dict, lookup, insert, delete, map_values}
use capacity_planning_operat.Prelude.Float.{Float64}
use capacity_planning_operat.Analysis.RingBuffer.{
  Sample, RingBuffer, new_ring_buffer, push, push_all, snapshot, len, reset,
}
use capacity_planning_operat.Operator.{Series, Key, set_value, delete_values}
use capacity_planning_operat.Metrics.{
  key_of, PvcKey, PvcUsage, RangePoint, PvcMetricsClient, mock_client, empty_mock,
}

abbrev second : ℕ
second = 1_000_000_000

abbrev pub default_sample_interval : ℤ
default_sample_interval = pos (30 * second)

pub record PvcState : Type 0 where
  pub buffer : RingBuffer
  pub last_uid : Str
  pub last_capacity_bytes : ℤ

pub record Watcher : Type 0 where
  pub metrics_client : Option PvcMetricsClient
  pub pvc_states : Dict PvcState
  pub retention : ℤ
  pub sample_interval : ℤ

-- What the handlers read of a PersistentVolumeClaim; the request is `none` where the storage
-- resource is missing.
pub record Pvc : Type 0 where
  pub namespace : Str
  pub name : Str
  pub uid : Str
  pub requested : Option ℤ

unfoldable pub new_watcher : Option PvcMetricsClient → ℤ → Watcher
new_watcher mc capacity = record {
  metrics_client = mc;
  pvc_states = [];
  retention = if ltb_ℤ capacity (pos 1) then pos 720 else capacity;
  sample_interval = default_sample_interval;
}

abbrev pub samples_of : Option PvcState → List Sample
samples_of none = []
samples_of (some s) = snapshot s.buffer

unfoldable pub get_snapshot : Watcher → Str → List Sample
get_snapshot w key = samples_of (lookup key w.pvc_states)

-- `none` is the answer `(0, false)`.
unfoldable pub get_latest_capacity : Watcher → Str → Option ℤ
get_latest_capacity w key = elim (lookup key w.pvc_states) [
  | none ↦ none
  | some s ↦ if leb_ℤ s.last_capacity_bytes (pos 0) then none else some s.last_capacity_bytes
]

unfoldable pub all_keys : Watcher → List Str
all_keys w = map (λ e. e.0) w.pvc_states

-- The state of a key as it stands in the watcher. A handler that goes on to change the object calls
-- `put_state` with the changed one: the map holds the object itself.
pub put_state : Watcher → Str → PvcState → Watcher
put_state w key s = record w { pvc_states = insert key s w.pvc_states }

fresh_state : Watcher → Str → PvcState
fresh_state w uid = record {
  buffer = new_ring_buffer w.retention;
  last_uid = uid;
  last_capacity_bytes = pos 0;
}

-- A changed UID is a volume that was deleted and made again.
same_volume : PvcState → Str → PvcState
same_volume s uid =
    if str_eq s.last_uid uid then s else record s { buffer = reset s.buffer; last_uid = uid }

-- The state of a key, from what the map has for it.
state_for : Watcher → Str → Option PvcState → PvcState
state_for w uid none = fresh_state w uid
state_for w uid (some old) = same_volume old uid

-- `ensureState`: the state that it returns, and the watcher with that state in it.
unfoldable pub ensure_state : Watcher → Str → Str → PvcState × Watcher
unfolding put_state fresh_state same_volume state_for
ensure_state w key uid = let s = state_for w uid (lookup key w.pvc_states) in (s, put_state w key s)

-- The body of the loop in `Configure`.
unfoldable pub resize : ℤ → PvcState → PvcState
resize retention s =
    let kept = snapshot s.buffer in
    let n = pos_part retention in
    let kept' = if ltb n (length kept) then drop (length kept - n) kept else kept in
    record s { buffer = push_all (new_ring_buffer retention) kept' }

unfoldable pub configure : Watcher → Option PvcMetricsClient → ℤ → ℤ → Watcher
unfolding resize
configure w mc retention sample_interval =
    let retention' = if ltb_ℤ retention (pos 1) then pos 720 else retention in
    let interval =
      if leb_ℤ sample_interval (pos 0) then default_sample_interval else sample_interval in
    let client : Option PvcMetricsClient = elim mc [ some c ↦ some c | none ↦ w.metrics_client ] in
    let w' : Watcher = record w { metrics_client = client; sample_interval = interval } in
    if eqb_ℤ retention' w.retention then w' else record w' {
      retention = retention';
      pvc_states = map_values (resize retention') w.pvc_states;
    }

unfoldable pub get_sample_interval : Watcher → ℤ
get_sample_interval w =
    if leb_ℤ w.sample_interval (pos 0) then default_sample_interval else w.sample_interval

unfoldable pub get_metrics_client : Watcher → PvcMetricsClient
get_metrics_client w = elim w.metrics_client [ some c ↦ c | none ↦ mock_client empty_mock ]

-- `splitKey`: at the first '/'; a key without one is a name.
split_at_slash : Str → Option (Str × Str)
split_at_slash [] = none
split_at_slash (c ∷ s) =
    let rest : Option (Str × Str) = elim (split_at_slash s) [
      | some (ns, name) ↦ some (c ∷ ns, name)
      | none ↦ none
    ] in
    if c == b'/' then some ([], s) else rest

unfoldable pub split_key : Str → Str × Str
unfolding split_at_slash
split_key key = elim (split_at_slash key) [ some p ↦ p | none ↦ ([], key) ]

abbrev pub anomaly_acceleration_spike : Str
anomaly_acceleration_spike = bytes "acceleration_spike"

abbrev pub anomaly_trend_instability : Str
anomaly_trend_instability = bytes "trend_instability"

abbrev pub anomaly_sudden_growth : Str
anomaly_sudden_growth = bytes "sudden_growth"

abbrev pub supported_anomaly_types : List Str
supported_anomaly_types =
    anomaly_acceleration_spike ∷ anomaly_trend_instability ∷ anomaly_sudden_growth ∷ []

-- The series that `deleteState` deletes.
abbrev pub series_of : Str → Str → List Key
series_of ns name =
    (bytes "capacityplan_pvc_usage_bytes" ∷ ns ∷ name ∷ [])
    ∷ (bytes "capacityplan_pvc_capacity_bytes" ∷ ns ∷ name ∷ [])
    ∷ (bytes "capacityplan_pvc_usage_ratio" ∷ ns ∷ name ∷ [])
    ∷ (bytes "capacityplan_pvc_samples_count" ∷ ns ∷ name ∷ [])
    ∷ (bytes "capacityplan_pvc_growth_bytes_per_day" ∷ ns ∷ name ∷ [])
    ∷ (bytes "capacityplan_pvc_days_until_full" ∷ ns ∷ name ∷ [])
    ∷ (bytes "capacityplan_pvc_projected_full_timestamp_seconds" ∷ ns ∷ name ∷ [])
    ∷ (bytes "capacityplan_pvc_growth_acceleration" ∷ ns ∷ name ∷ [])
    ∷ map (λ t. bytes "capacityplan_pvc_anomaly" ∷ ns ∷ name ∷ t ∷ []) supported_anomaly_types

module _ {F : Type 0} where
  unfoldable pub delete_state : Watcher → Series F → Str → Watcher × Series F
  delete_state w m key = elim (lookup key w.pvc_states) [
    | none ↦ (w, m)
    | some s ↦
        let (ns, name) = split_key key in
        (record w { pvc_states = delete key w.pvc_states }, delete_values (series_of ns name) m)
  ]
