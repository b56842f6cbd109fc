-- ===== src/Tests/Watching.antt =====
-- The watcher at a concrete volume.
use capacity_planning_operat.Prelude.{
  ◌≡◌, refl, [], ◌∷◌, some, none, newest, if◌then◌else◌, arith, List,
}
use capacity_planning_operat.Prelude.Int.{pos}
use capacity_planning_operat.Prelude.Text.{Str, bytes, str_eq}
use capacity_planning_operat.Prelude.Dict.{lookup, AllValues}
use capacity_planning_operat.Prelude.Float.{Milli, milli_float}
use capacity_planning_operat.Analysis.RingBuffer.Invariant.{new_ring_buffer-IsValid}
use capacity_planning_operat.Operator.{value_of, among, metrics}
use capacity_planning_operat.Metrics.{key_of, mock_client, mock_get_usage}
use capacity_planning_operat.Watcher.{
  Watcher, new_watcher, get_snapshot, configure, ensure_state, get_metrics_client, split_key,
}
use capacity_planning_operat.Watcher.Reconcile.{found, not_found, reconcile}
use capacity_planning_operat.Watcher.Invariant.{IsValid, HoldsCapacity, new_ring_buffer_sized}
use capacity_planning_operat.Watcher.Reach.{here, next, reconciled, configured, Reach-IsValid}
use capacity_planning_operat.Watcher.Samples.{
  history_of, extended, reconcile-history, configure-history,
}
use capacity_planning_operat.Watcher.Cleanup.{
  NoSlash, split_key-key_of, deleted-history, deleted-series, volume_series,
}
use capacity_planning_operat.Tests.{shop, disk, claim, mock, state, tracking}

abbrev gone : Watcher
gone = (reconcile {F = Milli} tracking [] shop disk not_found (pos 5)).watcher

pub tracking-IsValid : IsValid tracking
tracking-IsValid = record {
  positive = refl;
  states = (
    record {
      ring = (new_ring_buffer-IsValid (pos 2)).0;
      sized = new_ring_buffer_sized (pos 2) refl;
    },
    tt,
  );
}

abbrev started : Watcher
started = new_watcher (some (mock_client mock)) (pos 2)

abbrev sampled : Watcher
sampled = (reconcile {F = Milli} started [] shop disk (found claim) (pos 5)).watcher

Reach-IsValid_example :
    AllValues (HoldsCapacity (pos 3)) (configure sampled none (pos 3) (pos 0)).pvc_states
Reach-IsValid_example = Reach-IsValid {F = Milli} (some (mock_client mock)) (pos 2) (
    next (next here (reconciled started (pos 2) [] shop disk (found claim) (pos 5)))
      (configured sampled (pos 2) none (pos 3) (pos 0)))

reconcile-history_example :
    get_snapshot
      (reconcile {F = Milli} tracking [] shop disk (found claim) (pos 5)).watcher
      (key_of shop disk)
    ≡ (if str_eq (key_of shop disk) (key_of shop disk)
        then extended {F = Milli} tracking [] shop disk claim
            (pos 5)
            (history_of (lookup (key_of shop disk) tracking.pvc_states) (bytes "u1"))
            (mock_get_usage mock (record { namespace = shop; name = disk }))
        else get_snapshot tracking (key_of shop disk))
unfolding mock_get_usage get_metrics_client lookup ensure_state
reconcile-history_example =
    reconcile-history {F = Milli} tracking [] shop disk claim (pos 5) (key_of shop disk)
      tracking-IsValid

configure-history_example :
    get_snapshot (configure tracking none (pos 1) (pos 0)) (key_of shop disk)
    ≡ newest 1 (get_snapshot tracking (key_of shop disk))
configure-history_example =
    configure-history tracking none (pos 1) (pos 0) (key_of shop disk) tracking-IsValid

no_slash : NoSlash shop
no_slash = ground arith

split_key-key_of_example : split_key (key_of shop disk) ≡ (shop, disk)
split_key-key_of_example = split_key-key_of shop disk no_slash

deleted-history_example : get_snapshot gone (key_of shop disk) ≡ (
    if str_eq (key_of shop disk) (key_of shop disk)
    then []
    else get_snapshot tracking (key_of shop disk))
deleted-history_example =
    deleted-history {F = Milli} tracking [] shop disk (pos 5) (key_of shop disk)

abbrev usage_key : List Str
usage_key = bytes "capacityplan_pvc_usage_bytes" ∷ shop ∷ disk ∷ []

tracked : lookup (key_of shop disk) tracking.pvc_states ≡ some state
unfolding lookup str_eq
tracked = refl

deleted-series_example :
    value_of usage_key (reconcile {F = Milli} tracking [] shop disk not_found (pos 5)).series
    ≡ (if among usage_key (volume_series shop disk metrics) then none else value_of usage_key [])
deleted-series_example =
    deleted-series {F = Milli} tracking [] shop disk (pos 5) usage_key no_slash tracked
