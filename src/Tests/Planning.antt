-- ===== src/Tests/Planning.antt =====
-- The rankings, the changes and the anomalies at concrete volumes.
use capacity_planning_operat.Prelude.{
  ◌≡◌, refl, List, [], ◌∷◌, none, some, All, select, map, is_some,
}
use capacity_planning_operat.Prelude.Int.{pos, quot, ◌*ℤ◌}
use capacity_planning_operat.Prelude.Text.{Str, bytes, str_eq}
use capacity_planning_operat.Prelude.Sort.{IsTop, IsSorted}
use capacity_planning_operat.Prelude.Members.{Any}
use capacity_planning_operat.Prelude.Dict.{lookup, insert}
use capacity_planning_operat.Prelude.Float.{Milli, milli_float, Milli-IsOrdered, nought}
use capacity_planning_operat.Metrics.{key_of}
use capacity_planning_operat.Api.{PvcSummary}
use capacity_planning_operat.Plan.TopRisks.{to_risk_summary, build_top_risks}
use capacity_planning_operat.Plan.TopRisks.Ranking.{ranks_before, build_top_risks-IsTop}
use capacity_planning_operat.Plan.Summary.{build_status_summary}
use capacity_planning_operat.Plan.Summary.Leaderboards.{
  Shows, fuller, sooner, faster, build_status_summary-Shows,
}
use capacity_planning_operat.Plan.Changes.{index_risks, by_key, detect_risk_changes}
use capacity_planning_operat.Plan.Changes.Report.{Reports, grew}
use capacity_planning_operat.Plan.Changes.Detection.{IsExplained, detect_risk_changes_sound}
use capacity_planning_operat.Plan.Changes.Completeness.{
  detect_risk_changes_new, detect_risk_changes_recovered, detect_risk_changes_escalated,
}
use capacity_planning_operat.Plan.Anomalies.{detect_pvc_anomalies}
use capacity_planning_operat.Plan.Anomalies.Detection.{
  shown, all_warranted, is_graver, detect_pvc_anomalies_exact,
}
use mathlib.Core.List.{Perm}
use capacity_planning_operat.Plan.Signals.{PvcRiskSignal}
use capacity_planning_operat.Tests.{shop, disk, risk, signal, summary}

abbrev logs : Str
logs = bytes "logs"

build_top_risks-IsTop_example :
    (top : List (PvcRiskSignal Milli)) × (rest : List (PvcRiskSignal Milli)) × (build_top_risks
        (signal disk 5 ∷ signal logs 9 ∷ [])
        (pos 1)
      ≡ map to_risk_summary top)
    × IsTop ranks_before 1
        (select
          (λ s. milli_float.lt nought s.weekly_growth_bytes_per_day)
          (signal disk 5 ∷ signal logs 9 ∷ []))
        top
        rest
build_top_risks-IsTop_example =
    build_top_risks-IsTop Milli-IsOrdered (signal disk 5 ∷ signal logs 9 ∷ []) (pos 1)
      ((refl, refl), ((refl, refl), tt))

abbrev boards : List (PvcSummary Milli)
boards = summary disk 10 ∷ summary logs 20 ∷ []

build_status_summary-Shows_example :
    let out = build_status_summary boards (pos 1) in
    Shows fuller 1 boards out.top_by_usage
    × Shows sooner 1 (select (λ s. is_some s.days_until_full) boards) out.top_by_soonest_to_full
    × Shows faster 1
        (select (λ s. milli_float.lt nought s.growth_bytes_per_day) boards)
        out.top_by_growth
build_status_summary-Shows_example =
    build_status_summary-Shows Milli-IsOrdered boards (pos 1)
      ((refl, refl, refl), ((refl, refl, refl), tt))

detect_risk_changes_sound_example :
    All
      (IsExplained (pos 9) (by_key (risk disk 5 ∷ [])) (by_key (risk logs 5 ∷ [])))
      (detect_risk_changes (pos 9) (risk disk 5 ∷ []) (risk logs 5 ∷ []))
detect_risk_changes_sound_example =
    detect_risk_changes_sound (pos 9) (risk disk 5 ∷ []) (risk logs 5 ∷ [])

detect_risk_changes_new_example :
    Any
      (Reports (pos 9) (bytes "new") (risk logs 5) none (some (risk logs 5)))
      (detect_risk_changes (pos 9) (risk disk 5 ∷ []) (risk logs 5 ∷ []))
unfolding lookup index_risks insert str_eq
detect_risk_changes_new_example =
    detect_risk_changes_new (pos 9) (risk disk 5 ∷ []) (risk logs 5 ∷ []) (key_of shop logs)
      (risk logs 5) refl refl

detect_risk_changes_recovered_example :
    Any
      (Reports (pos 9) (bytes "recovered") (risk disk 5) (some (risk disk 5)) none)
      (detect_risk_changes (pos 9) (risk disk 5 ∷ []) (risk logs 5 ∷ []))
unfolding lookup index_risks insert str_eq
detect_risk_changes_recovered_example =
    detect_risk_changes_recovered (pos 9) (risk disk 5 ∷ []) (risk logs 5 ∷ []) (key_of shop disk)
      (risk disk 5) refl refl

detect_risk_changes_escalated_example :
    Any
      (Reports
        (pos 9)
        (bytes "escalated")
        (risk disk 9000)
        (some (risk disk 5000))
        (some (risk disk 9000)))
      (detect_risk_changes (pos 9) (risk disk 5000 ∷ []) (risk disk 9000 ∷ []))
unfolding lookup index_risks insert str_eq quot ◌*ℤ◌
detect_risk_changes_escalated_example =
    detect_risk_changes_escalated (pos 9) (risk disk 5000 ∷ []) (risk disk 9000 ∷ [])
      (key_of shop disk) (risk disk 5000) (risk disk 9000) refl refl (grew refl refl)

detect_pvc_anomalies_exact_example :
    let out = detect_pvc_anomalies (pos 9) (signal disk 5 ∷ []) [] in
    Perm (map shown out) (all_warranted (signal disk 5 ∷ [])) × IsSorted is_graver out
detect_pvc_anomalies_exact_example = detect_pvc_anomalies_exact (pos 9) (signal disk 5 ∷ []) []
