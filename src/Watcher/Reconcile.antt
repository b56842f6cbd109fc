-- ===== src/Watcher/Reconcile.antt =====
-- The handlers of internal/controller/pvcwatcher_controller.go. A handler runs to its end as one
-- step: it takes the watcher, the exported series, what the API server answers and the time, and
-- returns the new watcher and series with the request's result.
use capacity_planning_operat.Prelude.{
  ℕ, ◌+◌, Bool, true, false, List, [], ◌∷◌, ◌++◌, Option, none, some, if◌then◌else◌, map,
}
use capacity_planning_operat.Prelude.Int.{ℤ, pos, ltb_ℤ, leb_ℤ, eqb_ℤ}
use capacity_planning_operat.Prelude.Text.{Str, bytes}
use capacity_planning_operat.Prelude.Float.{Float64}
use capacity_planning_operat.Analysis.RingBuffer.{Sample, push, push_all, len}
use capacity_planning_operat.Operator.{Series, set_value}
use capacity_planning_operat.Metrics.{key_of, PvcUsage, RangePoint}
use capacity_planning_operat.Watcher.{
  Watcher, PvcState, Pvc, ensure_state, put_state, delete_state, get_metrics_client,
  get_sample_interval,
}

-- The answer of a `Get` on the API server.
pub data Got (A : Type 0) : Type 0 where
  not_found : Got A
  failed : Got A
  found : A → Got A

-- `ctrl.Result` with a nil error, or an error.
pub data Reply : Type 0 where
  done : Reply
  requeue_after : ℤ → Reply
  error : Reply

pub record Outcome (F : Type 0) : Type 0 where
  pub watcher : Watcher
  pub series : Series F
  pub reply : Reply

abbrev pub capacity_of : PvcUsage → Pvc → ℤ
capacity_of u pvc =
    let requested : ℤ = elim pvc.requested [ some q ↦ q | none ↦ u.capacity_bytes ] in
    if eqb_ℤ u.capacity_bytes (pos 0) then requested else u.capacity_bytes

module _ {F : Type 0} ⦃float : Float64 F⦄ where
  open float use {of_int, div}

  -- The series of a recorded sample.
  unfoldable pub export_usage : Str → Str → PvcUsage → ℤ → ℕ → Series F → Series F
  export_usage ns name u capacity count m =
      let m₁ =
        set_value (bytes "capacityplan_pvc_usage_bytes" ∷ ns ∷ name ∷ []) (of_int u.used_bytes) m in
      let m₂ =
        set_value (bytes "capacityplan_pvc_capacity_bytes" ∷ ns ∷ name ∷ []) (of_int capacity) m₁ in
      let m₃ =
        set_value (bytes "capacityplan_pvc_samples_count" ∷ ns ∷ name ∷ []) (of_int (pos count))
          m₂ in
      let ratio = div (of_int u.used_bytes) (of_int capacity) in
      if ltb_ℤ (pos 0) capacity
      then set_value (bytes "capacityplan_pvc_usage_ratio" ∷ ns ∷ name ∷ []) ratio m₃
      else m₃

  -- What `Reconcile` does once the backend has answered.
  unfoldable pub record_usage :
      Watcher → Series F → Str → Str → Pvc → ℤ → PvcState → PvcUsage → Outcome F
  record_usage w m ns name pvc now state u =
      let buffer = push state.buffer (record { timestamp = now; used_bytes = u.used_bytes }) in
      let capacity = capacity_of u pvc in
      let state' : PvcState = record state { buffer = buffer; last_capacity_bytes = capacity } in
      record {
        watcher = put_state w (key_of ns name) state';
        series = export_usage ns name u capacity (len buffer) m;
        reply = requeue_after (get_sample_interval w);
      }

  -- `Reconcile` of the request `ns`/`name`.
  unfoldable pub reconcile : Watcher → Series F → Str → Str → Got Pvc → ℤ → Outcome F
  unfolding record_usage export_usage
  reconcile w m ns name not_found now =
      let (w', m') = delete_state w m (key_of ns name) in
      record { watcher = w'; series = m'; reply = done }
  reconcile w m ns name failed now = record { watcher = w; series = m; reply = error }
  reconcile w m ns name (found pvc) now =
      let (state, w') = ensure_state w (key_of ns name) pvc.uid in
      let client = get_metrics_client w' in
      elim (client.get_usage (record { namespace = ns; name = name })) [
        | none ↦ record { watcher = w'; series = m; reply = requeue_after (get_sample_interval w') }
        | some u ↦ record_usage w' m ns name pvc now state u
      ]

abbrev pub to_sample : RangePoint → Sample
to_sample p = record { timestamp = p.timestamp; used_bytes = p.used_bytes }

-- `BackfillFromRange`; `false` is an error. The state is made or reset even then.
unfoldable pub backfill_from_range : Watcher → Str → Str → Str → ℤ → ℤ → ℤ → Watcher × Bool
backfill_from_range w namespace name uid start end step =
    let (state, w') = ensure_state w (key_of namespace name) uid in
    let client = get_metrics_client w' in
    elim (client.get_usage_range (record { namespace = namespace; name = name }) start end step) [
      | none ↦ (w', false)
      | some points ↦
          let state' : PvcState = record state {
            buffer = push_all state.buffer (map to_sample points);
          } in
          (put_state w' (key_of namespace name) state', true)
    ]

-- The loop of `BackfillAllPVCs`: the successes so far and the keys of the failures.
unfoldable pub backfill_each :
    Watcher → List Pvc → ℤ → ℤ → ℤ → ℕ → List Str → Watcher × ℕ × List Str
backfill_each w [] start end step success errs = (w, success, errs)
backfill_each w (pvc ∷ pvcs) start end step success errs =
    let (w', ok) = backfill_from_range w pvc.namespace pvc.name pvc.uid start end step in
    backfill_each w' pvcs start end step (if ok then success + 1 else success)
      (if ok then errs else errs ++ (key_of pvc.namespace pvc.name ∷ []))

-- What `BackfillAllPVCs` returns: the successes, and what its error reports.
pub data Backfilled : Type 0 where
  bad_step : Backfilled
  list_failed : Backfilled
  backfilled : ℕ → List Str → Backfilled

-- `none` is a failed `List`.
unfoldable pub backfill_all_pvcs : Watcher → Option (List Pvc) → ℤ → ℤ → ℤ → Watcher × Backfilled
unfolding backfill_each
backfill_all_pvcs w listed start end step =
    let run : Watcher × Backfilled = elim listed [
      | none ↦ (w, list_failed)
      | some pvcs ↦
          let (w', success, errs) = backfill_each w pvcs start end step 0 [] in
          (w', backfilled success errs)
    ] in
    if leb_ℤ step (pos 0) then (w, bad_step) else run
