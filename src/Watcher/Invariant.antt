-- ===== src/Watcher/Invariant.antt =====
-- The invariant of the watcher, and that no sequence of handlers breaks it.
use capacity_planning_operat.Prelude.{
  ℕ, ◌≡◌, ◌-◌, refl, ◌∙◌, ap, false, List, [], ◌∷◌, Option, none, some, arith, inl, inr, Bool-cases,
  Option-cases, if◌then◌else◌, map, length, ltb, drop,
}
use capacity_planning_operat.Prelude.Int.{ℤ, pos, ltb_ℤ, leb_ℤ, pos_part, eqb_ℤ}
use capacity_planning_operat.Prelude.Text.{Str, str_eq}
use capacity_planning_operat.Prelude.Dict.{
  Dict, lookup, map_values, AllValues, insert-AllValues, delete-AllValues, lookup-AllValues,
}
use capacity_planning_operat.Prelude.Float.{Float64}
use capacity_planning_operat.Analysis.RingBuffer.{Sample, new_ring_buffer, reset, snapshot}
use capacity_planning_operat.Analysis.RingBuffer.Invariant as Ring
use capacity_planning_operat.Analysis.RingBuffer.History.{push_all-IsValid}
use capacity_planning_operat.Operator.{Series}
use capacity_planning_operat.Metrics.{key_of, PvcUsage, PvcMetricsClient}
use capacity_planning_operat.Watcher.{
  Watcher, PvcState, Pvc, new_watcher, put_state, fresh_state, same_volume, state_for, ensure_state,
  resize, configure, delete_state, get_metrics_client,
}
use capacity_planning_operat.Watcher.Reconcile.{
  Got, not_found, failed, found, reconcile, record_usage, backfill_each, backfill_all_pvcs,
  backfill_from_range, to_sample,
}

-- A volume's buffer is valid and has the watcher's capacity.
pub record HoldsCapacity (retention : ℤ) (s : PvcState) : Type 0 where
  pub ring : Ring.IsValid s.buffer
  pub sized : pos s.buffer.capacity ≡ retention

pub record IsValid (w : Watcher) : Type 0 where
  pub positive : ltb_ℤ w.retention (pos 1) ≡ false
  pub states : AllValues (HoldsCapacity w.retention) w.pvc_states

-- A buffer that is made with an allowed capacity has that capacity.
pub new_ring_buffer_sized : (n : ℤ) → ltb_ℤ n (pos 1) ≡ false → pos (new_ring_buffer n).capacity ≡ n
unfolding new_ring_buffer
new_ring_buffer_sized n h = ground arith

pub new_watcher-IsValid : (mc : Option PvcMetricsClient) (n : ℤ) → IsValid (new_watcher mc n)
unfolding new_watcher
new_watcher-IsValid mc n = record { positive = ground arith; states = tt }

put_state-IsValid :
    (w : Watcher) (key : Str) (s : PvcState)
    → IsValid w
    → HoldsCapacity w.retention s
    → IsValid (put_state w key s)
unfolding put_state
put_state-IsValid w key s v h = record {
  positive = v.positive;
  states = insert-AllValues (HoldsCapacity w.retention) key s w.pvc_states h v.states;
}

fresh_state_sized :
    (w : Watcher) (uid : Str) → IsValid w → HoldsCapacity w.retention (fresh_state w uid)
unfolding fresh_state
fresh_state_sized w uid v = record {
  ring = (Ring.new_ring_buffer-IsValid w.retention).0;
  sized = new_ring_buffer_sized w.retention v.positive;
}

same_volume_sized :
    {r : ℤ} (s : PvcState) (uid : Str) → HoldsCapacity r s → HoldsCapacity r (same_volume s uid)
unfolding same_volume reset
same_volume_sized s uid h = elim (Bool-cases (str_eq s.last_uid uid)) [
  | inl e ↦ rw e h
  | inr e ↦ rw e (record { ring = Ring.reset-IsValid s.buffer h.ring; sized = h.sized })
]

state_for_sized :
    (w : Watcher) (key uid : Str)
    → IsValid w
    → HoldsCapacity w.retention (state_for w uid (lookup key w.pvc_states))
unfolding state_for
state_for_sized w key uid v = elim (Option-cases (lookup key w.pvc_states)) [
  | inl e ↦ rw (e, state_for) (fresh_state_sized w uid v)
  | inr (s, e) ↦
      rw (e, state_for)
        (same_volume_sized s uid
          (lookup-AllValues (HoldsCapacity w.retention) key w.pvc_states v.states e))
]

-- `ensureState` returns a state of the right capacity, and keeps the invariant.
pub ensure_state-IsValid :
    (w : Watcher) (key uid : Str)
    → IsValid w
    → HoldsCapacity w.retention (ensure_state w key uid).0 × IsValid (ensure_state w key uid).1
unfolding ensure_state
ensure_state-IsValid w key uid v =
    let h = state_for_sized w key uid v in
    (h, put_state-IsValid w key (state_for w uid (lookup key w.pvc_states)) v h)

retention-ensure_state :
    (w : Watcher) (key uid : Str) → (ensure_state w key uid).1.retention ≡ w.retention
unfolding ensure_state
retention-ensure_state w key uid = refl

resize_sized : (n : ℤ) (s : PvcState) → ltb_ℤ n (pos 1) ≡ false → HoldsCapacity n (resize n s)
unfolding resize
resize_sized n s h =
    let kept = snapshot s.buffer in
    let kept' =
      if ltb (pos_part n) (length kept) then drop (length kept - pos_part n) kept else kept in
    let (valid, same) =
      push_all-IsValid (new_ring_buffer n) kept' (Ring.new_ring_buffer-IsValid n).0 in
    record { ring = valid; sized = ap pos same ∙ new_ring_buffer_sized n h }

map_values_sized :
    (n : ℤ) (m : Dict PvcState)
    → ltb_ℤ n (pos 1) ≡ false
    → AllValues (HoldsCapacity n) (map_values (resize n) m)
unfolding map_values
map_values_sized n [] h = tt
map_values_sized n ((k, s) ∷ m) h = (resize_sized n s h, map_values_sized n m h)

-- `Configure` keeps the invariant, whatever it is given.
pub configure-IsValid :
    (w : Watcher) (mc : Option PvcMetricsClient) (n interval : ℤ)
    → IsValid w
    → IsValid (configure w mc n interval)
unfolding configure
configure-IsValid w mc n interval v =
    let r = if ltb_ℤ n (pos 1) then pos 720 else n in
    let ok : ltb_ℤ r (pos 1) ≡ false = ground arith in
    elim (Bool-cases (eqb_ℤ r w.retention)) [
      | inl e ↦ rw e (record { positive = v.positive; states = v.states })
      | inr e ↦ rw e (record { positive = ok; states = map_values_sized r w.pvc_states ok })
    ]

module _ {F : Type 0} where
  delete_state-IsValid :
      (w : Watcher) (m : Series F) (key : Str) → IsValid w → IsValid (delete_state w m key).0
  unfolding delete_state
  delete_state-IsValid w m key v = elim (Option-cases (lookup key w.pvc_states)) [
    | inl e ↦ rw (e, delete_state) v
    | inr (s, e) ↦
        rw (e, delete_state)
          (record {
            positive = v.positive;
            states = delete-AllValues (HoldsCapacity w.retention) key w.pvc_states v.states;
          })
  ]

  record_usage-IsValid :
      ⦃float : Float64 F⦄ (w : Watcher) (m : Series F) (ns name : Str) (pvc : Pvc) (now : ℤ)
      (s : PvcState) (u : PvcUsage)
      → IsValid w
      → HoldsCapacity w.retention s
      → IsValid (record_usage w m ns name pvc now s u).watcher
  unfolding record_usage
  record_usage-IsValid w m ns name pvc now s u v h =
      let sample : Sample = record { timestamp = now; used_bytes = u.used_bytes } in
      put_state-IsValid w (key_of ns name) _ v (record {
        ring = Ring.push-IsValid s.buffer sample h.ring;
        sized = ap pos (Ring.capacity-push s.buffer sample) ∙ h.sized;
      })

  -- `Reconcile` keeps the invariant, whatever the API server and the backend answer.
  pub reconcile-IsValid :
      ⦃float : Float64 F⦄ (w : Watcher) (m : Series F) (ns name : Str) (got : Got Pvc) (now : ℤ)
      → IsValid w
      → IsValid (reconcile w m ns name got now).watcher
  unfolding reconcile ensure_state
  reconcile-IsValid w m ns name not_found now v = delete_state-IsValid w m (key_of ns name) v
  reconcile-IsValid w m ns name failed now v = v
  reconcile-IsValid w m ns name (found pvc) now v =
      let (h, v') = ensure_state-IsValid w (key_of ns name) pvc.uid v in
      let (s, w') = ensure_state w (key_of ns name) pvc.uid in
      let answer = (get_metrics_client w').get_usage (record { namespace = ns; name = name }) in
      elim (Option-cases answer) [
        | inl e ↦ rw (e, reconcile) v'
        | inr (u, e) ↦ rw (e, reconcile) (record_usage-IsValid w' m ns name pvc now s u v' h)
      ]

pub backfill_from_range-IsValid :
    (w : Watcher) (ns name uid : Str) (start end step : ℤ)
    → IsValid w
    → IsValid (backfill_from_range w ns name uid start end step).0
unfolding backfill_from_range ensure_state
backfill_from_range-IsValid w ns name uid start end step v =
    let (h, v') = ensure_state-IsValid w (key_of ns name) uid v in
    let (s, w') = ensure_state w (key_of ns name) uid in
    let answer =
      (get_metrics_client w').get_usage_range (record { namespace = ns; name = name }) start end
        step in
    elim (Option-cases answer) [
      | inl e ↦ rw (e, backfill_from_range) v'
      | inr (points, e) ↦
          let (valid, same) = push_all-IsValid s.buffer (map to_sample points) h.ring in
          rw (e, backfill_from_range)
            (put_state-IsValid w' (key_of ns name) _ v'
              (record { ring = valid; sized = ap pos same ∙ h.sized }))
    ]

backfill_each-IsValid :
    (w : Watcher) (pvcs : List Pvc) (start end step : ℤ) (n : ℕ) (errs : List Str)
    → IsValid w
    → IsValid (backfill_each w pvcs start end step n errs).0
unfolding backfill_each
backfill_each-IsValid w [] start end step n errs v = v
backfill_each-IsValid w (p ∷ ps) start end step n errs v =
    backfill_each-IsValid (backfill_from_range w p.namespace p.name p.uid start end step).0 ps start
      end step _ _ (backfill_from_range-IsValid w p.namespace p.name p.uid start end step v)

pub backfill_all_pvcs-IsValid :
    (w : Watcher) (listed : Option (List Pvc)) (start end step : ℤ)
    → IsValid w
    → IsValid (backfill_all_pvcs w listed start end step).0
unfolding backfill_all_pvcs
backfill_all_pvcs-IsValid w none start end step v = elim (Bool-cases (leb_ℤ step (pos 0))) [
  | inl e ↦ rw e v
  | inr e ↦ rw e v
]
backfill_all_pvcs-IsValid w (some pvcs) start end step v = elim (Bool-cases (leb_ℤ step (pos 0))) [
  | inl e ↦ rw e v
  | inr e ↦ rw e (backfill_each-IsValid w pvcs start end step 0 [] v)
]
