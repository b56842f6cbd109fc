-- ===== src/Watcher/Samples.antt =====
-- The sample history of each volume, as the planner reads it, under the watcher's operations.
use capacity_planning_operat.Prelude.{
  ℕ, ◌-◌, ◌≡◌, refl, sym, ap, ◌∙◌, Bool, true, false, List, [], ◌∷◌, ◌++◌, Option, none, some,
  arith, inl, inr, Bool-cases, Option-cases, if◌then◌else◌, length, ltb, newest, newest_all,
  length-newest, drop, ◌≤◌,
}
use capacity_planning_operat.Prelude.Int.{ℤ, pos, ltb_ℤ, eqb_ℤ, eqb_ℤ_iff, pos_part}
use capacity_planning_operat.Prelude.Text.{Str, str_eq}
use capacity_planning_operat.Prelude.Dict.{
  lookup, lookup-insert, lookup-map_values, lookup-AllValues, map_option,
}
use capacity_planning_operat.Prelude.Float.{Float64}
use capacity_planning_operat.Analysis.RingBuffer.{
  RingBuffer, Sample, new_ring_buffer, push, reset, snapshot, len,
}
use capacity_planning_operat.Analysis.RingBuffer.Invariant as Ring
use capacity_planning_operat.Analysis.RingBuffer.History.{push-newest, push_all-newest}
use capacity_planning_operat.Operator.{Series}
use capacity_planning_operat.Metrics.{key_of, PvcUsage, PvcMetricsClient}
use capacity_planning_operat.Watcher.{
  Watcher, PvcState, samples_of, Pvc, get_snapshot, put_state, fresh_state, same_volume, state_for,
  ensure_state, resize, configure, get_metrics_client,
}
use capacity_planning_operat.Watcher.Reconcile.{found, reconcile, record_usage}
use capacity_planning_operat.Watcher.Invariant.{
  IsValid, HoldsCapacity, ensure_state-IsValid, new_ring_buffer_sized,
}

-- The history that belongs to the volume with this UID: none if the UID is new to the key.
abbrev pub history_of : Option PvcState → Str → List Sample
history_of none uid = []
history_of (some s) uid = if str_eq s.last_uid uid then snapshot s.buffer else []

get_snapshot-put_state :
    (w : Watcher) (key j : Str) (s : PvcState)
    → get_snapshot (put_state w key s) j
      ≡ (if str_eq key j then snapshot s.buffer else get_snapshot w j)
unfolding get_snapshot put_state
get_snapshot-put_state w key j s =
    ap samples_of (lookup-insert key j s w.pvc_states) ∙ by_key (str_eq key j)
  where
    by_key :
        (b : Bool)
        → samples_of (if b then some s else lookup j w.pvc_states)
          ≡ (if b then snapshot s.buffer else samples_of (lookup j w.pvc_states))
    by_key true = refl
    by_key false = refl

snapshot-new : (n : ℤ) → snapshot (new_ring_buffer n) ≡ []
unfolding snapshot new_ring_buffer
snapshot-new n = refl

snapshot-reset : (r : RingBuffer) → snapshot (reset r) ≡ []
unfolding snapshot reset
snapshot-reset r = refl

snapshot-same_volume :
    (s : PvcState) (uid : Str)
    → snapshot (same_volume s uid).buffer
      ≡ (if str_eq s.last_uid uid then snapshot s.buffer else [])
unfolding same_volume
snapshot-same_volume s uid = elim (Bool-cases (str_eq s.last_uid uid)) [
  | inl e ↦ rw e refl
  | inr e ↦ rw e (snapshot-reset s.buffer)
]

-- `ensureState` returns the history of the volume that it is given, and drops that of another
-- volume which had the same key.
pub ensure_state-history :
    (w : Watcher) (key uid : Str)
    → snapshot (ensure_state w key uid).0.buffer ≡ history_of (lookup key w.pvc_states) uid
unfolding ensure_state state_for fresh_state
ensure_state-history w key uid = elim (Option-cases (lookup key w.pvc_states)) [
  | inl e ↦ rw e (snapshot-new w.retention)
  | inr (s, e) ↦ rw e (snapshot-same_volume s uid)
]

get_snapshot-ensure_state :
    (w : Watcher) (key j uid : Str)
    → get_snapshot (ensure_state w key uid).1 j
      ≡ (if str_eq key j then history_of (lookup key w.pvc_states) uid else get_snapshot w j)
get_snapshot-ensure_state w key j uid =
    get_snapshot-ensured w key j uid
    ∙ ap (λ h. if str_eq key j then h else get_snapshot w j) (ensure_state-history w key uid)
  where
    get_snapshot-ensured :
        (v : Watcher) (k i u : Str)
        → get_snapshot (ensure_state v k u).1 i
          ≡ (if str_eq k i then snapshot (ensure_state v k u).0.buffer else get_snapshot v i)
    get_snapshot-ensured v k i u = unfold ensure_state in get_snapshot-put_state v k i _

module _ {F : Type 0} ⦃float : Float64 F⦄ (w : Watcher) (m : Series F) (ns name : Str) (pvc : Pvc)
    (now : ℤ) where
  abbrev key : Str
  key = key_of ns name

  abbrev pub answer : Option PvcUsage
  answer =
      (get_metrics_client (ensure_state w key pvc.uid).1).get_usage
        (record { namespace = ns; name = name })

  -- What `Reconcile` leaves in the history of the volume's key, from the history `old`.
  abbrev pub extended : List Sample → Option PvcUsage → List Sample
  extended old none = old
  extended old (some u) =
      newest (pos_part w.retention)
        (old ++ (record { timestamp = now; used_bytes = u.used_bytes } ∷ []))

  snapshot-pushed :
      (x : Sample)
      → IsValid w
      → snapshot (push (ensure_state w key pvc.uid).0.buffer x)
        ≡ newest (pos_part w.retention) (history_of (lookup key w.pvc_states) pvc.uid ++ (x ∷ []))
  snapshot-pushed x v =
      let s = (ensure_state w key pvc.uid).0 in
      let h = (ensure_state-IsValid w key pvc.uid v).0 in
      push-newest s.buffer x h.ring
      ∙ ap (λ c. newest c (snapshot s.buffer ++ (x ∷ []))) (ap pos_part h.sized)
      ∙ ap (λ xs. newest (pos_part w.retention) (xs ++ (x ∷ [])))
          (ensure_state-history w key pvc.uid)

  get_snapshot-other :
      (j : Str)
      → str_eq key j ≡ false
      → get_snapshot (ensure_state w key pvc.uid).1 j ≡ get_snapshot w j
  get_snapshot-other j e = rw e at (get_snapshot-ensure_state w key j pvc.uid)

  -- In a valid watcher, for a volume that exists, `Reconcile` appends the backend's answer, stamped with the time, to the
  -- history of this volume (dropping that of an older one with the same key) and keeps the newest
  -- `retention` samples; without an answer the history stays. No other key's history changes.
  pub reconcile-history :
      (j : Str)
      → IsValid w
      → get_snapshot (reconcile w m ns name (found pvc) now).watcher j ≡ (
          if str_eq key j
          then extended (history_of (lookup key w.pvc_states) pvc.uid) answer
          else get_snapshot w j)
  unfolding reconcile record_usage
  reconcile-history j v =
      let w' = (ensure_state w key pvc.uid).1 in
      elim (Option-cases answer) [
        | inl e ↦ rw (e, reconcile) (get_snapshot-ensure_state w key j pvc.uid)
        | inr (u, e) ↦
            rw (e, reconcile)
              (get_snapshot-put_state w' key j _ ∙ elim (Bool-cases (str_eq key j)) [
                | inl b ↦ rw b (snapshot-pushed _ v)
                | inr b ↦ rw b (get_snapshot-other j b)
              ])
      ]

-- The part of a history that a retention keeps; 0 and less stand for 720.
abbrev pub allowed : ℤ → ℤ
allowed n = if ltb_ℤ n (pos 1) then pos 720 else n

abbrev trimmed : ℕ → List Sample → List Sample
trimmed k xs = if ltb k (length xs) then drop (length xs - k) xs else xs

trimmed-newest : (k : ℕ) (xs : List Sample) → trimmed k xs ≡ newest k xs
trimmed-newest k xs = elim (Bool-cases (ltb k (length xs))) [
  | inl e ↦ rw e refl
  | inr e ↦ rw e (sym (newest_all k xs (ground arith)))
]

snapshot-resize :
    (n : ℤ) (s : PvcState)
    → ltb_ℤ n (pos 1) ≡ false
    → snapshot (resize n s).buffer ≡ newest (pos_part n) (snapshot s.buffer)
unfolding resize
snapshot-resize n s h =
    let old = snapshot s.buffer in
    let k = pos_part n in
    push_all-newest (new_ring_buffer n) _ (Ring.new_ring_buffer-IsValid n).0
    ∙ ap (λ xs. newest (new_ring_buffer n).capacity (xs ++ trimmed k old)) (snapshot-new n)
    ∙ ap (λ c. newest c (trimmed k old)) (ap pos_part (new_ring_buffer_sized n h))
    ∙ ap (newest k) (trimmed-newest k old)
    ∙ newest_all k (newest k old) (omega (arith, length-newest k old))

resized-newest :
    (n : ℤ) (o : Option PvcState)
    → ltb_ℤ n (pos 1) ≡ false
    → samples_of (map_option (resize n) o) ≡ newest (pos_part n) (samples_of o)
resized-newest n none h = sym (newest_all (pos_part n) [] (omega arith))
resized-newest n (some s) h = snapshot-resize n s h

-- In a valid watcher a history never has more samples than the retention.
pub length-get_snapshot :
    (w : Watcher) (key : Str) → IsValid w → length (get_snapshot w key) ≤ pos_part w.retention
unfolding get_snapshot
length-get_snapshot w key v = elim (Option-cases (lookup key w.pvc_states)) [
  | inl e ↦ rw e (omega arith)
  | inr (s, e) ↦
      let h = lookup-AllValues (HoldsCapacity w.retention) key w.pvc_states v.states e in
      rw e (
        unfold len in
        omega (arith, Ring.length-snapshot s.buffer, h.ring.count_in, ap pos_part h.sized))
]

-- In a valid watcher `Configure` keeps of each history the newest samples that the new retention
-- allows.
pub configure-history :
    (w : Watcher) (mc : Option PvcMetricsClient) (n interval : ℤ) (key : Str)
    → IsValid w
    → get_snapshot (configure w mc n interval) key
      ≡ newest (pos_part (allowed n)) (get_snapshot w key)
unfolding configure get_snapshot
configure-history w mc n interval key v =
    let r = allowed n in
    let ok : ltb_ℤ r (pos 1) ≡ false = ground arith in
    elim (Bool-cases (eqb_ℤ r w.retention)) [
      | inl e ↦
          let same : r ≡ w.retention = (eqb_ℤ_iff r w.retention).0 e in
          rw e (
            sym (
              newest_all (pos_part r) (get_snapshot w key) (rw same (length-get_snapshot w key v))))
      | inr e ↦ rw (e, lookup-map_values) (resized-newest r (lookup key w.pvc_states) ok)
    ]
