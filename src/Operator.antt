-- ===== src/Operator.antt =====
-- internal/operator/metrics.go: the series that the operator exports. A vector's series are keyed by
-- the metric's name and its label values; the registry itself is not under src/.
use capacity_planning_operat.Prelude.{
  ◌≡◌, refl, ap, ◌∙◌, ◌↔◌, Bool, true, false, ◌&&◌, List, [], ◌∷◌, Option, none, some, arith,
  if◌then◌else◌,
}
use capacity_planning_operat.Prelude.Float.{Float64, nought}
use capacity_planning_operat.Prelude.Text.{Str, bytes, str_eq, str_eq_iff}

pub data Kind : Type 0 where
  gauge counter histogram : Kind

pub record Metric : Type 0 where
  pub kind : Kind
  pub name : Str
  pub labels : List Str

abbrev pvc_labels : List Str
pvc_labels = bytes "namespace" ∷ bytes "pvc" ∷ []

abbrev model_labels : List Str
model_labels = bytes "provider" ∷ bytes "model" ∷ []

-- The vectors of the file, in its order.
abbrev pub metrics : List Metric
metrics =
    record { kind = gauge; name = bytes "capacityplan_pvc_usage_bytes"; labels = pvc_labels }
    ∷ record { kind = gauge; name = bytes "capacityplan_pvc_capacity_bytes"; labels = pvc_labels }
    ∷ record { kind = gauge; name = bytes "capacityplan_pvc_usage_ratio"; labels = pvc_labels }
    ∷ record {
      kind = gauge;
      name = bytes "capacityplan_pvc_growth_bytes_per_day";
      labels = pvc_labels;
    }
    ∷ record { kind = gauge; name = bytes "capacityplan_pvc_days_until_full"; labels = pvc_labels }
    ∷ record {
      kind = gauge;
      name = bytes "capacityplan_pvc_projected_full_timestamp_seconds";
      labels = pvc_labels;
    }
    ∷ record {
      kind = gauge;
      name = bytes "capacityplan_pvc_growth_acceleration";
      labels = pvc_labels;
    }
    ∷ record {
      kind = counter;
      name = bytes "capacityplan_pvc_risk_changes_total";
      labels = bytes "type" ∷ [];
    }
    ∷ record {
      kind = gauge;
      name = bytes "capacityplan_namespace_budget_days_to_breach";
      labels = bytes "namespace" ∷ [];
    }
    ∷ record {
      kind = gauge;
      name = bytes "capacityplan_workload_budget_days_to_breach";
      labels = bytes "namespace" ∷ bytes "kind" ∷ bytes "workload" ∷ [];
    }
    ∷ record {
      kind = gauge;
      name = bytes "capacityplan_pvc_anomaly";
      labels = bytes "namespace" ∷ bytes "pvc" ∷ bytes "type" ∷ [];
    }
    ∷ record {
      kind = counter;
      name = bytes "capacityplan_pvc_anomalies_total";
      labels = bytes "type" ∷ [];
    }
    ∷ record { kind = gauge; name = bytes "capacityplan_pvc_samples_count"; labels = pvc_labels }
    ∷ record {
      kind = counter;
      name = bytes "capacityplan_llm_requests_total";
      labels = model_labels;
    }
    ∷ record { kind = counter; name = bytes "capacityplan_llm_errors_total"; labels = model_labels }
    ∷ record {
      kind = counter;
      name = bytes "capacityplan_llm_timeouts_total";
      labels = model_labels;
    }
    ∷ record {
      kind = histogram;
      name = bytes "capacityplan_llm_latency_seconds";
      labels = model_labels;
    }
    ∷ []

-- The metric's name and the label values.
abbrev pub Key : Type 0
Key = List Str

unfoldable pub key_eq : Key → Key → Bool
key_eq [] [] = true
key_eq (a ∷ k) (b ∷ l) = str_eq a b && key_eq k l
key_eq _ _ = false

pub key_eq_iff : (k l : Key) → (key_eq k l ≡ true) ↔ (k ≡ l)
unfolding key_eq
key_eq_iff [] [] = ground arith
key_eq_iff [] (b ∷ l) = ground arith
key_eq_iff (a ∷ k) [] = ground arith
key_eq_iff (a ∷ k) (b ∷ l) = ground (arith, str_eq_iff a b, key_eq_iff k l)

-- What the operator exports: the value of each series that exists.
abbrev pub Series : Type 0 → Type 0
Series F = List (Key × F)

abbrev pub among : Key → List Key → Bool
among j [] = false
among j (k ∷ ks) = if key_eq k j then true else among j ks

module _ {F : Type 0} where
  pub value_of : Key → Series F → Option F
  value_of k [] = none
  value_of k ((j, v) ∷ m) = if key_eq j k then some v else value_of k m

  -- `WithLabelValues(…).Set(v)`.
  pub set_value : Key → F → Series F → Series F
  set_value k v [] = (k, v) ∷ []
  set_value k v ((j, w) ∷ m) = if key_eq j k then (j, v) ∷ m else (j, w) ∷ set_value k v m

  -- `DeleteLabelValues(…)`.
  pub delete_value : Key → Series F → Series F
  delete_value k [] = []
  delete_value k ((j, w) ∷ m) = if key_eq j k then delete_value k m else (j, w) ∷ delete_value k m

  pub value_of-set_value :
      (k j : Key) (v : F) (m : Series F)
      → value_of j (set_value k v m) ≡ (if key_eq k j then some v else value_of j m)
  unfolding value_of set_value
  value_of-set_value k j v [] = refl
  value_of-set_value k j v ((i, w) ∷ m) =
      ground (arith, key_eq_iff k j, key_eq_iff i k, key_eq_iff i j, value_of-set_value k j v m)

  pub value_of-delete_value :
      (k j : Key) (m : Series F)
      → value_of j (delete_value k m) ≡ (if key_eq k j then none else value_of j m)
  unfolding value_of delete_value
  value_of-delete_value k j [] = ground arith
  value_of-delete_value k j ((i, w) ∷ m) =
      ground (arith, key_eq_iff k j, key_eq_iff i k, key_eq_iff i j, value_of-delete_value k j m)

  -- The loops that delete a list of series.
  pub delete_values : List Key → Series F → Series F
  delete_values [] m = m
  delete_values (k ∷ ks) m = delete_values ks (delete_value k m)

  pub value_of-delete_values :
      (ks : List Key) (j : Key) (m : Series F)
      → value_of j (delete_values ks m) ≡ (if among j ks then none else value_of j m)
  unfolding delete_values
  value_of-delete_values [] j m = refl
  value_of-delete_values (k ∷ ks) j m =
      ground (arith, value_of-delete_values ks j (delete_value k m), value_of-delete_value k j m)

  -- `Reset()` drops every series of the metric.
  pub reset_metric : Str → Series F → Series F
  reset_metric name [] = []
  reset_metric name (([], w) ∷ m) = ([], w) ∷ reset_metric name m
  reset_metric name ((n ∷ ls, w) ∷ m) =
      if str_eq n name then reset_metric name m else (n ∷ ls, w) ∷ reset_metric name m

  -- `WithLabelValues(…).Inc()`.
  pub increment : ⦃float : Float64 F⦄ → Key → Series F → Series F
  increment ⦃float⦄ k m =
      let old : F = elim (value_of k m) [ some v ↦ v | none ↦ nought ] in
      set_value k (float.add old (float.lit 1 1)) m

-- Series of different metrics do not touch each other.
other_metric : (m n : Str) (k l : Key) → str_eq m n ≡ false → key_eq (m ∷ k) (n ∷ l) ≡ false
unfolding key_eq
other_metric m n k l h = ground (arith, h)

module _ {F : Type 0} (m n : Str) (l : Key) (differ : str_eq m n ≡ false) where
  pub value_of-set_other :
      (k : Key) (v : F) (s : Series F)
      → value_of (n ∷ l) (set_value (m ∷ k) v s) ≡ value_of (n ∷ l) s
  value_of-set_other k v s =
      value_of-set_value (m ∷ k) (n ∷ l) v s
      ∙ ap (λ b. if b then some v else value_of (n ∷ l) s) (other_metric m n k l differ)

  pub value_of-increment_other :
      ⦃float : Float64 F⦄ (k : Key) (s : Series F)
      → value_of (n ∷ l) (increment (m ∷ k) s) ≡ value_of (n ∷ l) s
  unfolding increment
  value_of-increment_other k s = value_of-set_other k _ s

  pub value_of-reset_metric :
      (s : Series F) → value_of (n ∷ l) (reset_metric m s) ≡ value_of (n ∷ l) s
  unfolding reset_metric value_of key_eq
  value_of-reset_metric [] = refl
  value_of-reset_metric (([], w) ∷ s) = value_of-reset_metric s
  value_of-reset_metric ((k ∷ ks, w) ∷ s) =
      ground
        (arith, differ, str_eq_iff k m, str_eq_iff m n, str_eq_iff k n, value_of-reset_metric s)
