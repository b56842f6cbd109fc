-- ===== src/Plan/Anomalies/Detection.antt =====
-- Which anomalies are reported, and in which order, independently of the code's own conditions.
use capacity_planning_operat.Prelude.{
  ℕ, ◌≡◌, sym, Bool, List, [], ◌∷◌, ◌++◌, inl, inr, Bool-cases, All, refl, map, if◌then◌else◌, ◌==◌,
  ltb,
}
use mathlib.Core.List.{Perm}
use mathlib.Core.List.Perm
use capacity_planning_operat.Prelude.Int.{ℤ, pos}
use capacity_planning_operat.Prelude.Text.{Str, bytes, str_eq, str_lt}
use capacity_planning_operat.Prelude.Sort.{
  IsOrder, IsSorted, IsSorted-same, sort_slice, sort_slice-perm, sort_slice-IsSorted,
}
use mathlib.Core.List.{map-append}
use capacity_planning_operat.Prelude.Lex.{
  by_first_difference, lex-IsOrder, Anything, nat-IsWeakOrder, str-IsWeakOrder, by_key-IsOrder,
}
use capacity_planning_operat.Prelude.Dict.{Dict}
use capacity_planning_operat.Prelude.Float.{Float64, nought}
use capacity_planning_operat.Api.{PvcAnomaly}
use capacity_planning_operat.Metrics.{key_of}
use capacity_planning_operat.Plan.Signals.{PvcRiskSignal}
use capacity_planning_operat.Plan.TopRisks.{PvcWorkloadRef}
use capacity_planning_operat.Plan.Anomalies.{
  anomaly_severity_rank, anomaly_less, spike, instability, jump, anomalies_of, collect,
  detect_pvc_anomalies, build_anomaly, workload_of,
}

-- Critical anomalies come first, then warnings.
abbrev gravity : Str → ℕ
gravity severity =
    if str_eq severity (bytes "critical")
    then 0
    else (if str_eq severity (bytes "warning") then 1 else 2)

module _ {F : Type 0} where
  anomaly_less-IsOrder : IsOrder (anomaly_less {F = F}) Anything
  unfolding anomaly_less
  anomaly_less-IsOrder =
      lex-IsOrder Anything {Q = Anything} (λ a. anomaly_severity_rank a.severity) (λ a h. tt)
        nat-IsWeakOrder
        (lex-IsOrder Anything {Q = Anything} (λ a. a.namespace) (λ a h. tt) str-IsWeakOrder
          (by_key-IsOrder Anything (λ a. a.name) (λ a. a.anomaly_type)))

  -- The order: critical before warning, then the namespace, the name and the type.
  abbrev pub is_graver : PvcAnomaly F → PvcAnomaly F → Bool
  is_graver a b =
      by_first_difference
        ((gravity a.severity == gravity b.severity, ltb (gravity a.severity) (gravity b.severity))
          ∷ (str_eq a.namespace b.namespace, str_lt a.namespace b.namespace)
          ∷ (str_eq a.name b.name, str_lt a.name b.name)
          ∷ [])
        (str_lt a.anomaly_type b.anomaly_type)

  anomaly_less-is_graver : (a b : PvcAnomaly F) → anomaly_less a b ≡ is_graver a b
  unfolding anomaly_less anomaly_severity_rank
  anomaly_less-is_graver a b = refl

module _ (F : Type 0) where
  -- The volume, the type, the severity and the four numbers that an anomaly shows.
  pub record Shown : Type 0 where
    pub namespace : Str
    pub name : Str
    pub anomaly_type : Str
    pub severity : Str
    pub weekly : F
    pub daily : F
    pub acceleration : F
    pub confidence : F

module _ {F : Type 0} ⦃float : Float64 F⦄ where
  open float use {of_int, lit, mul, abs, lt, le}

  abbrev pub shown : PvcAnomaly F → Shown F
  shown a = record {
    namespace = a.namespace;
    name = a.name;
    anomaly_type = a.anomaly_type;
    severity = a.severity;
    weekly = a.weekly_growth_bytes_per_day;
    daily = a.daily_growth_bytes_per_day;
    acceleration = a.growth_acceleration;
    confidence = a.confidence_r2;
  }

  abbrev of_signal : PvcRiskSignal F → Str → Str → Shown F
  of_signal s anomaly_type severity = record {
    namespace = s.namespace;
    name = s.name;
    anomaly_type = anomaly_type;
    severity = severity;
    weekly = s.weekly_growth_bytes_per_day;
    daily = s.daily_growth_bytes_per_day;
    acceleration = s.growth_acceleration;
    confidence = s.confidence_r2;
  }

  -- `found` under all of the conditions.
  abbrev under : List Bool → Shown F → List (Shown F)
  under [] found = found ∷ []
  under (c ∷ cs) found = if c then under cs found else []

  -- Growth that has accelerated by three quarters, which is critical from one and a half on.
  abbrev warranted_spike : PvcRiskSignal F → List (Shown F)
  warranted_spike s =
      under (lt nought s.weekly_growth_bytes_per_day ∷ le (lit 75 100) s.growth_acceleration ∷ []) (
        of_signal s (bytes "acceleration_spike")
          (if le (lit 150 100) s.growth_acceleration then bytes "critical" else bytes "warning"))

  -- A trend of more than 10 MiB a day up or down, of a confidence above 0 and below 0.35.
  abbrev warranted_instability : PvcRiskSignal F → List (Shown F)
  warranted_instability s =
      under
        (lt (of_int (pos 10_485_760)) (abs s.weekly_growth_bytes_per_day)
          ∷ lt nought s.confidence_r2
          ∷ lt s.confidence_r2 (lit 35 100)
          ∷ [])
        (of_signal s (bytes "trend_instability") (bytes "warning"))

  -- A day's growth of more than 2.5 times the weekly growth and more than 100 MiB.
  abbrev warranted_jump : PvcRiskSignal F → List (Shown F)
  warranted_jump s =
      under
        (lt nought s.weekly_growth_bytes_per_day
          ∷ lt (mul s.weekly_growth_bytes_per_day (lit 25 10)) s.daily_growth_bytes_per_day
          ∷ lt (of_int (pos 104_857_600)) s.daily_growth_bytes_per_day
          ∷ [])
        (of_signal s (bytes "sudden_growth") (bytes "critical"))

  abbrev warranted : PvcRiskSignal F → List (Shown F)
  warranted s = warranted_spike s ++ (warranted_instability s ++ warranted_jump s)

  unfoldable pub all_warranted : List (PvcRiskSignal F) → List (Shown F)
  all_warranted [] = []
  all_warranted (s ∷ ss) = warranted s ++ all_warranted ss

  module _ (now : ℤ) where
    shown-spike :
        (s : PvcRiskSignal F) (ref : PvcWorkloadRef)
        → map shown (spike now s ref) ≡ warranted_spike s
    unfolding spike build_anomaly
    shown-spike s ref = elim (Bool-cases (lt nought s.weekly_growth_bytes_per_day)) [
      | inl e ↦ elim (Bool-cases (le (lit 75 100) s.growth_acceleration)) [
        | inl f ↦ rw (e, f) refl
        | inr f ↦ rw (e, f) refl
      ]
      | inr e ↦ rw e refl
    ]

    shown-instability :
        (s : PvcRiskSignal F) (ref : PvcWorkloadRef)
        → map shown (instability now s ref) ≡ warranted_instability s
    unfolding instability build_anomaly
    shown-instability s ref =
        elim (Bool-cases (lt (of_int (pos 10_485_760)) (abs s.weekly_growth_bytes_per_day))) [
          | inl e ↦ elim (Bool-cases (lt nought s.confidence_r2)) [
            | inl f ↦ elim (Bool-cases (lt s.confidence_r2 (lit 35 100))) [
              | inl g ↦ rw (e, f, g) refl
              | inr g ↦ rw (e, f, g) refl
            ]
            | inr f ↦ rw (e, f) refl
          ]
          | inr e ↦ rw e refl
        ]

    shown-jump :
        (s : PvcRiskSignal F) (ref : PvcWorkloadRef) → map shown (jump now s ref) ≡ warranted_jump s
    unfolding jump build_anomaly
    shown-jump s ref =
        let weekly = s.weekly_growth_bytes_per_day in
        let daily = s.daily_growth_bytes_per_day in
        elim (Bool-cases (lt nought weekly)) [
          | inl e ↦ elim (Bool-cases (lt (mul weekly (lit 25 10)) daily)) [
            | inl f ↦ elim (Bool-cases (lt (of_int (pos 104_857_600)) daily)) [
              | inl g ↦ rw (e, f, g) refl
              | inr g ↦ rw (e, f, g) refl
            ]
            | inr f ↦ rw (e, f) refl
          ]
          | inr e ↦ rw e refl
        ]

    shown-anomalies :
        (s : PvcRiskSignal F) (ref : PvcWorkloadRef)
        → map shown (anomalies_of now s ref) ≡ warranted s
    unfolding anomalies_of
    shown-anomalies s ref =
        rw
          (
            map-append shown (spike now s ref) (instability now s ref ++ jump now s ref),
            map-append shown (instability now s ref) (jump now s ref),
            shown-spike s ref,
            shown-instability s ref,
            shown-jump s ref,
          )
          refl

    shown-collect :
        (signals : List (PvcRiskSignal F)) (workloads : Dict PvcWorkloadRef)
        → map shown (collect now signals workloads) ≡ all_warranted signals
    unfolding collect all_warranted
    shown-collect [] workloads = refl
    shown-collect (s ∷ ss) workloads =
        let ref = workload_of workloads (key_of s.namespace s.name) in
        rw
          (
            map-append shown (anomalies_of now s ref) (collect now ss workloads),
            shown-anomalies s ref,
            shown-collect ss workloads,
          )
          refl

    Anything-All : (rest : List (PvcAnomaly F)) → All Anything rest
    Anything-All [] = tt
    Anything-All (a ∷ rest) = (tt, Anything-All rest)

    -- The anomalies that are found, as they show the volume, the type, the severity and the numbers,
    -- are exactly the warranted ones, none lost, invented or doubled. For each signal these are: a spike
    -- where the weekly growth is above zero and has accelerated by three quarters or more (critical
    -- from one and a half on, else a warning); an instability, a warning, where the weekly growth is
    -- more than 10 MiB a day up or down and the confidence above 0 and below 0.35; and a critical
    -- sudden growth where the weekly growth is above zero and the daily one more than 2.5 times as
    -- large and more than 100 MiB. They are in order of severity, namespace, name and type.
    pub detect_pvc_anomalies_exact :
        (signals : List (PvcRiskSignal F)) (workloads : Dict PvcWorkloadRef)
        → let out = detect_pvc_anomalies now signals workloads in
          Perm (map shown out) (all_warranted signals) × IsSorted is_graver out
    unfolding detect_pvc_anomalies
    detect_pvc_anomalies_exact signals workloads =
        let found = collect now signals workloads in
        (
          rw (sym (shown-collect signals workloads))
              (Perm.map shown (sort_slice-perm anomaly_less found)),
          IsSorted-same anomaly_less is_graver anomaly_less-is_graver
              (sort_slice anomaly_less found)
              (sort_slice-IsSorted anomaly_less Anything anomaly_less-IsOrder found
                (Anything-All found)),
        )
