-- ===== src/Plan/Setup/Scope.antt =====
-- What a plan reads, and what it leaves in the watcher.
use capacity_planning_operat.Prelude.{
  ℕ, zero, suc, true, ◌≡◌, refl, List, [], ◌∷◌, Option, none, some, All, newest, arith, inl, inr,
  if◌then◌else◌, ◌∙◌, ap,
}
use capacity_planning_operat.Prelude.Int.{ℤ, pos, negsuc, pos_part, leb_ℤ, ltb_ℤ}
use capacity_planning_operat.Prelude.Text.{Str, is_empty}
use capacity_planning_operat.Prelude.Members.{Any, All-append}
use capacity_planning_operat.Api.{CapacityPlanSpec}
use capacity_planning_operat.Metrics.{PvcMetricsClient}
use capacity_planning_operat.Watcher.{Watcher, Pvc, get_snapshot, default_sample_interval}
use capacity_planning_operat.Watcher.Invariant.{IsValid}
use capacity_planning_operat.Watcher.Samples.{configure-history, allowed}
use capacity_planning_operat.Plan.Setup.{
  appended, list_each, list_scoped_pvcs, plan_retention, configure_watcher_for_plan,
}

-- The volume is in one of the namespaces.
abbrev pub IsScoped : List Str → Pvc → Type 0
IsScoped namespaces p = Any (λ ns. p.namespace ≡ ns) namespaces

module _ (list : Option Str → Option (List Pvc))
    (lists : (ns : Str) (ps : List Pvc)
      → list (some ns) ≡ some ps
      → All (λ p. p.namespace ≡ ns) ps) where
  here-All :
      (ns : Str) (rest : List Str) (ps : List Pvc)
      → All (λ p. p.namespace ≡ ns) ps
      → All (IsScoped (ns ∷ rest)) ps
  here-All ns rest [] h = tt
  here-All ns rest (p ∷ ps) (e, h) = (inl e, here-All ns rest ps h)

  there-All :
      (ns : Str) (rest : List Str) (ps : List Pvc)
      → All (IsScoped rest) ps
      → All (IsScoped (ns ∷ rest)) ps
  there-All ns rest [] h = tt
  there-All ns rest (p ∷ ps) (e, h) = (inr e, there-All ns rest ps h)

  abbrev Fits : List Str → Option (List Pvc) → Type 0
  Fits namespaces none = Unit
  Fits namespaces (some ps) = All (IsScoped namespaces) ps

  appended-Fits :
      (ns : Str) (rest : List Str) (one others : Option (List Pvc))
      → list (some ns) ≡ one
      → Fits rest others
      → Fits (ns ∷ rest) (appended one others)
  appended-Fits ns rest none others e h = tt
  appended-Fits ns rest (some ps) none e h = tt
  appended-Fits ns rest (some ps) (some qs) e h =
      All-append (IsScoped (ns ∷ rest)) ps qs (here-All ns rest ps (lists ns ps e))
        (there-All ns rest qs h)

  list_each-Fits : (namespaces : List Str) → Fits namespaces (list_each list namespaces)
  unfolding list_each
  list_each-Fits [] = tt
  list_each-Fits (ns ∷ rest) =
      appended-Fits ns rest (list (some ns)) (list_each list rest) refl (list_each-Fits rest)

  -- If the list call for a namespace answers with volumes of that namespace, a plan that names
  -- namespaces reads only volumes of these.
  pub list_scoped_pvcs-IsScoped :
      (ns : Str) (rest : List Str) (ps : List Pvc)
      → list_scoped_pvcs list (ns ∷ rest) ≡ some ps
      → All (IsScoped (ns ∷ rest)) ps
  unfolding list_scoped_pvcs
  list_scoped_pvcs-IsScoped ns rest ps e = rw e at (list_each-Fits (ns ∷ rest))

plan_retention_positive : (r d : ℤ) → allowed (plan_retention r d) ≡ plan_retention r d
plan_retention_positive r d = ground arith

-- The plan's retention, or else the operator's default, or else 720: the first that is above zero.
abbrev or_720 : ℤ → ℕ
or_720 (pos zero) = 720
or_720 (pos (suc n)) = suc n
or_720 (negsuc n) = 720

abbrev pub kept_samples : ℤ → ℤ → ℕ
kept_samples (pos zero) default_retention = or_720 default_retention
kept_samples (pos (suc n)) default_retention = suc n
kept_samples (negsuc n) default_retention = or_720 default_retention

default-or_720 : (d : ℤ) → pos_part (if ltb_ℤ (pos 0) d then d else pos 720) ≡ or_720 d
default-or_720 (pos zero) = refl
default-or_720 (pos (suc n)) = ground arith
default-or_720 (negsuc n) = ground arith

plan_retention-kept_samples : (r d : ℤ) → pos_part (plan_retention r d) ≡ kept_samples r d
plan_retention-kept_samples (pos zero) d = default-or_720 d
plan_retention-kept_samples (pos (suc n)) d = ground arith
plan_retention-kept_samples (negsuc n) d =
    let below : leb_ℤ (negsuc n) (pos 0) ≡ true = ground arith in rw below (default-or_720 d)

-- In a valid watcher, setting it up for a plan keeps of each history the newest samples: as many as the
-- plan's retention, or as the operator's default where the plan has none above zero, or 720 where that
-- is none above zero either.
pub configure_watcher_for_plan-history :
    {F : Type 0} (new_prometheus_client : Str → PvcMetricsClient)
    (default_client : Option PvcMetricsClient) (default_retention : ℤ) (spec : CapacityPlanSpec F)
    (w : Watcher) (key : Str)
    → IsValid w
    → get_snapshot
        (configure_watcher_for_plan new_prometheus_client default_client default_retention spec w)
        key
      ≡ newest (kept_samples spec.sample_retention default_retention) (get_snapshot w key)
unfolding configure_watcher_for_plan
configure_watcher_for_plan-history new_prometheus_client default_client default_retention spec w key
      v =
    configure-history w
      (if is_empty spec.prometheus_url
        then default_client
        else some (new_prometheus_client spec.prometheus_url))
      (plan_retention spec.sample_retention default_retention)
      (if leb_ℤ spec.sample_interval (pos 0) then default_sample_interval else spec.sample_interval)
      key v
    ∙ ap (λ n. newest (pos_part n) (get_snapshot w key))
        (plan_retention_positive spec.sample_retention default_retention)
    ∙ ap (λ n. newest n (get_snapshot w key))
        (plan_retention-kept_samples spec.sample_retention default_retention)
