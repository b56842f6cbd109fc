-- ===== src/Plan/Hash/Unordered.antt =====
-- The hashes depend on what is hashed and not on its order.
use mathlib.Core.List.{Perm}
use mathlib.Core.List.Perm
use capacity_planning_operat.Prelude.{
  ◌≡◌, refl, ap₂, ap, Bool, true, false, ◌&&◌, List, [], ◌∷◌, ◌++◌, inl, inr, arith, if◌then◌else◌,
  Bool-cases,
}
use capacity_planning_operat.Prelude.Text.{Str, str_eq, str_lt, str_eq_iff, str_lt_total}
use capacity_planning_operat.Prelude.Sort.{IsOrder}
use capacity_planning_operat.Prelude.Canonical.{
  AllPairs, AllPairs-imp, IsComparable, sort_slice_canonical,
}
use capacity_planning_operat.Prelude.Lex.{
  lex, lex-IsOrder, str-IsWeakOrder, by_key-IsOrder, Anything,
}
use capacity_planning_operat.Prelude.Float.{Float64}
use capacity_planning_operat.Api.{PvcRiskSummary, StorageBudgetForecast}
use capacity_planning_operat.Plan.Hash.{
  snapshot_less, snapshot_text, compute_risk_snapshot_hash, row_less, rows_text, append_forecasts,
  compute_budget_forecast_hash, is_nil,
}

Str-set : IsSet Str
Str-set = hlevel

Perm-is_nil : {A : Type 0} {xs ys : List A} → Perm xs ys → is_nil xs ≡ is_nil ys
Perm-is_nil {xs = []} {ys} p = ap is_nil (Perm.nil-eq p)
Perm-is_nil {xs = x ∷ xs} {ys = []} p = ap is_nil (Perm.eq-nil p)
Perm-is_nil {xs = x ∷ xs} {ys = y ∷ ys} p = refl

-- A comparator that goes on to the next key decides between any elements that differ in a key.
lex-IsComparable :
    {A : Type 0} (key : A → Str) (next : A → A → Bool) (a b : A)
    → (str_eq (key a) (key b) ≡ true → IsComparable next a b)
    → IsComparable (lex str_eq str_lt key next) a b
lex-IsComparable key next a b f = elim (Bool-cases (str_eq (key a) (key b))) [
  | inl e ↦ ground (arith, e, f e, str_eq_iff (key a) (key b), str_eq_iff (key b) (key a))
  | inr e ↦ ground (
    arith,
    e,
    str_eq_iff (key a) (key b),
    str_eq_iff (key b) (key a),
    str_lt_total (key a) (key b),
  )
]

name-IsComparable :
    {A : Type 0} (key : A → Str) (a b : A)
    → str_eq (key a) (key b) ≡ false
    → IsComparable (λ x y. str_lt (key x) (key y)) a b
name-IsComparable key a b e =
    ground (arith, e, str_eq_iff (key a) (key b), str_lt_total (key a) (key b))

module _ {F : Type 0} where
  -- Volumes of different keys, and rows of different ones.
  abbrev pub AreOtherVolumes : PvcRiskSummary F → PvcRiskSummary F → Type 0
  AreOtherVolumes a b = (str_eq a.namespace b.namespace && str_eq a.name b.name) ≡ false

  abbrev pub AreOtherScopes : StorageBudgetForecast F → StorageBudgetForecast F → Type 0
  AreOtherScopes a b =
      (str_eq a.scope b.scope
        && (str_eq a.namespace b.namespace && (str_eq a.kind b.kind && str_eq a.name b.name)))
      ≡ false

  snapshot_less-IsOrder : IsOrder (snapshot_less {F = F}) (λ r. Unit)
  unfolding snapshot_less
  snapshot_less-IsOrder = by_key-IsOrder Anything (λ r. r.namespace) (λ r. r.name)

  AreOtherVolumes-IsComparable :
      (a b : PvcRiskSummary F) → AreOtherVolumes a b → IsComparable snapshot_less a b
  unfolding snapshot_less
  AreOtherVolumes-IsComparable a b d =
      lex-IsComparable (λ r. r.namespace) (λ x y. str_lt x.name y.name) a b
        (λ e. name-IsComparable (λ r. r.name) a b (rw e at d))

  row_less-IsOrder : IsOrder (row_less {F = F}) (λ r. Unit)
  unfolding row_less
  row_less-IsOrder =
      lex-IsOrder Anything {Q = Anything} (λ r. r.scope) (λ r p. tt) str-IsWeakOrder
        (lex-IsOrder Anything {Q = Anything} (λ r. r.namespace) (λ r p. tt) str-IsWeakOrder
          (by_key-IsOrder Anything (λ r. r.kind) (λ r. r.name)))

  AreOtherScopes-IsComparable :
      (a b : StorageBudgetForecast F) → AreOtherScopes a b → IsComparable row_less a b
  unfolding row_less
  AreOtherScopes-IsComparable a b d =
      let by_name : StorageBudgetForecast F → StorageBudgetForecast F → Bool =
        λ x y. str_lt x.name y.name in
      let by_kind : StorageBudgetForecast F → StorageBudgetForecast F → Bool =
        lex str_eq str_lt (λ r. r.kind) by_name in
      let by_namespace : StorageBudgetForecast F → StorageBudgetForecast F → Bool =
        lex str_eq str_lt (λ r. r.namespace) by_kind in
      lex-IsComparable (λ r. r.scope) by_namespace a b
        (λ e.
          lex-IsComparable (λ r. r.namespace) by_kind a b
            (λ f.
              lex-IsComparable (λ r. r.kind) by_name a b
                (λ g. name-IsComparable (λ r. r.name) a b (ground (arith, d, e, f, g)))))

module _ {F : Type 0} ⦃float : Float64 F⦄ where
  -- Whatever SHA-256 computes, the snapshot hash of volumes of different keys is the same in whatever
  -- order the risks are given.
  pub compute_risk_snapshot_hash_unordered :
      (sha256_hex : Str → Str) {xs ys : List (PvcRiskSummary F)}
      → Perm xs ys
      → AllPairs AreOtherVolumes xs
      → compute_risk_snapshot_hash sha256_hex xs ≡ compute_risk_snapshot_hash sha256_hex ys
  unfolding compute_risk_snapshot_hash
  compute_risk_snapshot_hash_unordered sha256_hex {xs = []} {ys} p h =
      ap (compute_risk_snapshot_hash sha256_hex) (Perm.nil-eq p)
  compute_risk_snapshot_hash_unordered sha256_hex {xs = x ∷ xs} {ys = []} p h =
      ap (compute_risk_snapshot_hash sha256_hex) (Perm.eq-nil p)
  compute_risk_snapshot_hash_unordered sha256_hex {xs = x ∷ xs} {ys = y ∷ ys} p h =
      sort_slice_canonical snapshot_less snapshot_less-IsOrder Str-set
        (λ rs. sha256_hex (snapshot_text rs)) p
        (AllPairs-imp AreOtherVolumes (IsComparable snapshot_less) AreOtherVolumes-IsComparable
          (x ∷ xs) h)

  append_forecasts_unordered :
      {xs ys : List (StorageBudgetForecast F)}
      → Perm xs ys
      → AllPairs AreOtherScopes xs
      → append_forecasts xs ≡ append_forecasts ys
  unfolding append_forecasts
  append_forecasts_unordered {xs} p h =
      sort_slice_canonical row_less row_less-IsOrder Str-set rows_text p
        (AllPairs-imp AreOtherScopes (IsComparable row_less) AreOtherScopes-IsComparable xs h)

  -- The same of the hash of the forecasts, where in each of the two lists no two rows agree in scope,
  -- namespace, kind and name.
  pub compute_budget_forecast_hash_unordered :
      (sha256_hex : Str → Str) {ns ns' ws ws' : List (StorageBudgetForecast F)}
      → Perm ns ns'
      → Perm ws ws'
      → AllPairs AreOtherScopes ns
      → AllPairs AreOtherScopes ws
      → compute_budget_forecast_hash sha256_hex ns ws
        ≡ compute_budget_forecast_hash sha256_hex ns' ws'
  unfolding compute_budget_forecast_hash
  compute_budget_forecast_hash_unordered sha256_hex p q h k =
      ap₂ (λ b t. if b then [] else sha256_hex t) (ap₂ ◌&&◌ (Perm-is_nil p) (Perm-is_nil q))
        (ap₂ ◌++◌ (append_forecasts_unordered p h) (append_forecasts_unordered q k))
