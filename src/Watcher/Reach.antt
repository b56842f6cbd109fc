-- ===== src/Watcher/Reach.antt =====
-- What the watcher can come to: the calls of its two controllers and of the startup, in any order.
use capacity_planning_operat.Prelude.{
  ◌≡◌, refl, ◌∙◌, List, Option, none, some, inl, inr, Bool-cases, Option-cases, if◌then◌else◌, ◌∷◌,
  [], ℕ, zero, suc, arith, sym,
}
use capacity_planning_operat.Prelude.Int.{ℤ, pos, negsuc, eqb_ℤ, leb_ℤ, ltb_ℤ, eqb_ℤ_iff}
use mathlib.Core.Path.{subst}
use capacity_planning_operat.Prelude.Text.{Str}
use capacity_planning_operat.Prelude.Dict.{lookup, AllValues}
use capacity_planning_operat.Prelude.Float.{Float64}
use capacity_planning_operat.Operator.{Series}
use capacity_planning_operat.Metrics.{PvcMetricsClient, key_of}
use capacity_planning_operat.Watcher.{
  Watcher, Pvc, new_watcher, configure, ensure_state, get_metrics_client, delete_state,
}
use capacity_planning_operat.Watcher.Reconcile.{
  Got, found, failed, not_found, reconcile, backfill_all_pvcs, backfill_each, backfill_from_range,
}
use capacity_planning_operat.Watcher.Invariant.{
  IsValid, HoldsCapacity, new_watcher-IsValid, reconcile-IsValid, configure-IsValid,
  backfill_all_pvcs-IsValid,
}

-- The retention that a setting asks for: 720 samples where it gives none above zero.
abbrev pub asked_for : ℤ → ℤ
asked_for (pos zero) = pos 720
asked_for (pos (suc n)) = pos (suc n)
asked_for (negsuc n) = pos 720

-- A step from a watcher that was last asked for one retention to one that was last asked for another.
pub data Step (F : Type 0) ⦃float : Float64 F⦄ : Watcher → ℤ → Watcher → ℤ → Type 0 where
  reconciled :
      (w : Watcher) (r : ℤ) (m : Series F) (ns name : Str) (got : Got Pvc) (now : ℤ)
      → Step F w r (reconcile w m ns name got now).watcher r
  backfilled :
      (w : Watcher) (r : ℤ) (listed : Option (List Pvc)) (start end step : ℤ)
      → Step F w r (backfill_all_pvcs w listed start end step).0 r
  configured :
      (w : Watcher) (r : ℤ) (mc : Option PvcMetricsClient) (n interval : ℤ)
      → Step F w r (configure w mc n interval) n

pub data Reach (F : Type 0) ⦃float : Float64 F⦄ (w : Watcher) (r : ℤ) : Watcher → ℤ → Type 0 where
  here : Reach F w r w r
  next : {u v : Watcher} {p q : ℤ} → Reach F w r u p → Step F u p v q → Reach F w r v q

asked_for-allowed : (n : ℤ) → (if ltb_ℤ n (pos 1) then pos 720 else n) ≡ asked_for n
asked_for-allowed (pos zero) = refl
asked_for-allowed (pos (suc n)) = ground arith
asked_for-allowed (negsuc n) = ground arith

retention-new_watcher :
    (mc : Option PvcMetricsClient) (n : ℤ) → (new_watcher mc n).retention ≡ asked_for n
unfolding new_watcher
retention-new_watcher mc n = asked_for-allowed n

retention-configure :
    (w : Watcher) (mc : Option PvcMetricsClient) (n interval : ℤ)
    → (configure w mc n interval).retention ≡ asked_for n
unfolding configure
retention-configure w mc n interval =
    let r = if ltb_ℤ n (pos 1) then pos 720 else n in
    elim (Bool-cases (eqb_ℤ r w.retention)) [
      | inl e ↦ rw e (sym ((eqb_ℤ_iff r w.retention).0 e) ∙ asked_for-allowed n)
      | inr e ↦ rw e (asked_for-allowed n)
    ]

retention-backfill_from_range :
    (w : Watcher) (ns name uid : Str) (start end step : ℤ)
    → (backfill_from_range w ns name uid start end step).0.retention ≡ w.retention
unfolding backfill_from_range ensure_state
retention-backfill_from_range w ns name uid start end step =
    let w' = (ensure_state w (key_of ns name) uid).1 in
    elim (Option-cases (
      (get_metrics_client w').get_usage_range (record { namespace = ns; name = name }) start end
        step)) [
          | inl e ↦ rw (e, backfill_from_range) refl
          | inr (points, e) ↦ rw (e, backfill_from_range) refl
        ]

retention-backfill_each :
    (w : Watcher) (pvcs : List Pvc) (start end step : ℤ) (n : ℕ) (errs : List Str)
    → (backfill_each w pvcs start end step n errs).0.retention ≡ w.retention
unfolding backfill_each
retention-backfill_each w [] start end step n errs = refl
retention-backfill_each w (p ∷ ps) start end step n errs =
    retention-backfill_each (backfill_from_range w p.namespace p.name p.uid start end step).0 ps
      start end step _ _
    ∙ retention-backfill_from_range w p.namespace p.name p.uid start end step

retention-backfill_all_pvcs :
    (w : Watcher) (listed : Option (List Pvc)) (start end step : ℤ)
    → (backfill_all_pvcs w listed start end step).0.retention ≡ w.retention
unfolding backfill_all_pvcs
retention-backfill_all_pvcs w none start end step = elim (Bool-cases (leb_ℤ step (pos 0))) [
  | inl e ↦ rw e refl
  | inr e ↦ rw e refl
]
retention-backfill_all_pvcs w (some pvcs) start end step = elim (Bool-cases (leb_ℤ step (pos 0))) [
  | inl e ↦ rw e refl
  | inr e ↦ rw e (retention-backfill_each w pvcs start end step 0 [])
]

-- A valid watcher of the retention that was asked for.
abbrev Keeps : Watcher → ℤ → Type 0
Keeps w r = IsValid w × (w.retention ≡ asked_for r)

module _ {F : Type 0} ⦃float : Float64 F⦄ where
  retention-reconcile :
      (w : Watcher) (m : Series F) (ns name : Str) (got : Got Pvc) (now : ℤ)
      → (reconcile w m ns name got now).watcher.retention ≡ w.retention
  unfolding reconcile ensure_state delete_state
  retention-reconcile w m ns name not_found now =
      elim (Option-cases (lookup (key_of ns name) w.pvc_states)) [
        | inl e ↦ rw (e, reconcile, delete_state) refl
        | inr (s, e) ↦ rw (e, reconcile, delete_state) refl
      ]
  retention-reconcile w m ns name failed now = refl
  retention-reconcile w m ns name (found pvc) now =
      let w' = (ensure_state w (key_of ns name) pvc.uid).1 in
      elim (Option-cases
        ((get_metrics_client w').get_usage (record { namespace = ns; name = name }))) [
          | inl e ↦ rw (e, reconcile) refl
          | inr (u, e) ↦ rw (e, reconcile) refl
        ]

  Step-Keeps : {u v : Watcher} {p q : ℤ} → Step F u p v q → Keeps u p → Keeps v q
  Step-Keeps (reconciled w r m ns name got now) (h, e) =
      (reconcile-IsValid w m ns name got now h, retention-reconcile w m ns name got now ∙ e)
  Step-Keeps (backfilled w r listed start end step) (h, e) = (
    backfill_all_pvcs-IsValid w listed start end step h,
    retention-backfill_all_pvcs w listed start end step ∙ e,
  )
  Step-Keeps (configured w r mc n interval) (h, e) =
      (configure-IsValid w mc n interval h, retention-configure w mc n interval)

  Reach-Keeps :
      {w : Watcher} {r : ℤ} {u : Watcher} {p : ℤ} → Keeps w r → Reach F w r u p → Keeps u p
  Reach-Keeps h here = h
  Reach-Keeps h (next r s) = Step-Keeps s (Reach-Keeps h r)

  -- From a new watcher, whatever its capacity, every sequence of requests, backfills and
  -- reconfigurations, with any answers, ends in a watcher each of whose buffers is valid and has the
  -- capacity that the watcher was last asked for, by its making or by a reconfiguration: 720 where
  -- that gives none above zero.
  pub Reach-IsValid :
      (mc : Option PvcMetricsClient) (n : ℤ) {w : Watcher} {r : ℤ}
      → Reach F (new_watcher mc n) n w r
      → AllValues (HoldsCapacity (asked_for r)) w.pvc_states
  Reach-IsValid mc n {w} {r} reached =
      let (valid, e) = Reach-Keeps (new_watcher-IsValid mc n, retention-new_watcher mc n) reached in
      subst (λ k. AllValues (HoldsCapacity k) w.pvc_states) e valid.states
