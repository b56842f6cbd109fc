-- ===== src/Watcher/Cleanup.antt =====
-- What the watcher forgets of a volume that the API server no longer has.
use capacity_planning_operat.Prelude.{
  ◌≡◌, ◌≢◌, refl, sym, ap, ◌∙◌, Bool, true, false, List, [], ◌++◌, ◌∷◌, none, some, arith, inl, inr,
  Bool-cases, Option-cases, if◌then◌else◌, All,
}
use capacity_planning_operat.Prelude.Text.{Str, bytes, str_eq, str_eq_iff}
use capacity_planning_operat.Prelude.Int.{ℤ}
use capacity_planning_operat.Prelude.Dict.{lookup, delete, lookup-delete}
use capacity_planning_operat.Prelude.Float.{Float64}
use capacity_planning_operat.Operator.{
  Series, Key, Metric, metrics, key_eq, among, value_of, value_of-delete_values,
}
use capacity_planning_operat.Metrics.{key_of}
use capacity_planning_operat.Watcher.{
  Watcher, PvcState, samples_of, get_snapshot, delete_state, split_at_slash, split_key, series_of,
}
use capacity_planning_operat.Watcher.Reconcile.{not_found, reconcile}

abbrev pub NoSlash : Str → Type 0
NoSlash = All (λ c. c ≢ b'/')

split_at_slash-key_of :
    (ns name : Str) → NoSlash ns → split_at_slash (key_of ns name) ≡ some (ns, name)
unfolding split_at_slash
split_at_slash-key_of [] name h = refl
split_at_slash-key_of (c ∷ ns) name (hc, h) = ground (arith, split_at_slash-key_of ns name h)

-- A key splits into the namespace and the name that it was made of, if the namespace has no '/'.
pub split_key-key_of : (ns name : Str) → NoSlash ns → split_key (key_of ns name) ≡ (ns, name)
unfolding split_key
split_key-key_of ns name h = rw (split_at_slash-key_of ns name h, split_key) refl

-- The series of a metric that name a volume: one where its labels are the namespace and the volume, and
-- one for each type of anomaly where there is a type too.
abbrev volume_keys : Str → Str → Metric → List Key
volume_keys ns name metric =
    if key_eq metric.labels (bytes "namespace" ∷ bytes "pvc" ∷ [])
    then (metric.name ∷ ns ∷ name ∷ []) ∷ []
    else (if key_eq metric.labels (bytes "namespace" ∷ bytes "pvc" ∷ bytes "type" ∷ [])
        then (metric.name ∷ ns ∷ name ∷ bytes "acceleration_spike" ∷ [])
          ∷ (metric.name ∷ ns ∷ name ∷ bytes "trend_instability" ∷ [])
          ∷ (metric.name ∷ ns ∷ name ∷ bytes "sudden_growth" ∷ [])
          ∷ []
        else [])

abbrev pub volume_series : Str → Str → List Metric → List Key
volume_series ns name [] = []
volume_series ns name (metric ∷ rest) = volume_keys ns name metric ++ volume_series ns name rest

-- Whether one of the tests succeeds, the fourth one made last on the right.
abbrev first_of : List Bool → Bool
first_of [] = false
first_of (b ∷ bs) = if b then true else first_of bs

fourth_last :
    (u v w x a b c d e f g : Bool)
    → first_of (u ∷ v ∷ w ∷ x ∷ a ∷ b ∷ c ∷ d ∷ e ∷ f ∷ g ∷ [])
      ≡ first_of (u ∷ v ∷ w ∷ a ∷ b ∷ c ∷ d ∷ e ∷ f ∷ g ∷ x ∷ [])
fourth_last u v w x a b c d e f g = ground arith

among-series_of :
    (ns name : Str) (k : Key)
    → among k (series_of ns name) ≡ among k (volume_series ns name metrics)
unfolding key_eq str_eq
among-series_of ns name k =
    let hit : Str → List Str → Bool = λ metric types. key_eq (metric ∷ ns ∷ name ∷ types) k in
    let anomaly : Str → Bool = λ t. hit (bytes "capacityplan_pvc_anomaly") (t ∷ []) in
    fourth_last (hit (bytes "capacityplan_pvc_usage_bytes") [])
      (hit (bytes "capacityplan_pvc_capacity_bytes") [])
      (hit (bytes "capacityplan_pvc_usage_ratio") [])
      (hit (bytes "capacityplan_pvc_samples_count") [])
      (hit (bytes "capacityplan_pvc_growth_bytes_per_day") [])
      (hit (bytes "capacityplan_pvc_days_until_full") [])
      (hit (bytes "capacityplan_pvc_projected_full_timestamp_seconds") [])
      (hit (bytes "capacityplan_pvc_growth_acceleration") []) (anomaly (bytes "acceleration_spike"))
      (anomaly (bytes "trend_instability")) (anomaly (bytes "sudden_growth"))

module _ {F : Type 0} ⦃float : Float64 F⦄ (w : Watcher) (m : Series F) (ns name : Str)
    (now : ℤ) where
  abbrev key : Str
  key = key_of ns name

  samples_of-delete :
      (j : Str)
      → samples_of (lookup j (delete key w.pvc_states))
        ≡ (if str_eq key j then [] else samples_of (lookup j w.pvc_states))
  samples_of-delete j = ap samples_of (lookup-delete key j w.pvc_states) ∙ by_key (str_eq key j)
    where
      by_key :
          (b : Bool)
          → samples_of (if b then none else lookup j w.pvc_states)
            ≡ (if b then [] else samples_of (lookup j w.pvc_states))
      by_key true = refl
      by_key false = refl

  untracked :
      (j : Str)
      → lookup key w.pvc_states ≡ none
      → samples_of (lookup j w.pvc_states)
        ≡ (if str_eq key j then [] else samples_of (lookup j w.pvc_states))
  untracked j e = elim (Bool-cases (str_eq key j)) [
    | inl b ↦ rw b (
        ap (λ k. samples_of (lookup k w.pvc_states)) (sym ((str_eq_iff key j).0 b))
        ∙ ap samples_of e)
    | inr b ↦ rw b refl
  ]

  -- When the API server no longer has a volume, its history is gone and no other one changes.
  pub deleted-history :
      (j : Str)
      → get_snapshot (reconcile w m ns name not_found now).watcher j
        ≡ (if str_eq key j then [] else get_snapshot w j)
  unfolding reconcile delete_state get_snapshot
  deleted-history j = elim (Option-cases (lookup key w.pvc_states)) [
    | inl e ↦ rw (e, reconcile, delete_state) (untracked j e)
    | inr (s, e) ↦ rw (e, reconcile, delete_state) (samples_of-delete j)
  ]

  -- When the API server no longer has a tracked volume, every series of the operator that is labelled
  -- with its namespace and its name is deleted, for each of the three types where there is a label for
  -- the type, and every other series keeps its value. The namespace has no '/'.
  pub deleted-series :
      (k : Key) {s : PvcState}
      → NoSlash ns
      → lookup key w.pvc_states ≡ some s
      → value_of k (reconcile w m ns name not_found now).series
        ≡ (if among k (volume_series ns name metrics) then none else value_of k m)
  unfolding reconcile delete_state
  deleted-series k h e =
      rw (e, reconcile, delete_state)
        (rw (split_key-key_of ns name h) (
          value_of-delete_values (series_of ns name) k m
          ∙ ap (λ b. if b then none else value_of k m) (among-series_of ns name k)))
