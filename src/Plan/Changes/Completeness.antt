-- ===== src/Plan/Changes/Completeness.antt =====
-- No transition between the two sets of risks goes unreported, and the report is in order.
use capacity_planning_operat.Prelude.{◌≡◌, List, [], ◌∷◌, Option, none, some, inl, inr, Bool-cases}
use mathlib.Core.Option.{some-injective}
use capacity_planning_operat.Prelude.Int.{ℤ}
use capacity_planning_operat.Prelude.Text.{Str, bytes, str_eq, str_eq_iff}
use capacity_planning_operat.Prelude.Members.{
  Any, Any-append_left, Any-append_right, sort_slice-Any,
}
use capacity_planning_operat.Prelude.Dict.{Dict, lookup}
use capacity_planning_operat.Prelude.Float.{Float64}
use capacity_planning_operat.Api.{PvcRiskSummary, PvcRiskChange}
use capacity_planning_operat.Plan.Changes.{
  by_key, arrival, departure, arrivals, departures, detect_risk_changes, change_less,
}
use capacity_planning_operat.Plan.Changes.Report.{
  Reports, HasEscalated, new_change-Reports, escalated_change-Reports, recovered_change-Reports,
  is_escalated_risk-HasEscalated,
}

module _ {F : Type 0} ⦃float : Float64 F⦄ (now : ℤ) where
  module _ (P : PvcRiskChange F → Type 0) (other : Dict (PvcRiskSummary F)) (k : Str) where
    arrivals_complete :
        (m : Dict (PvcRiskSummary F)) (c : PvcRiskSummary F)
        → lookup k m ≡ some c
        → Any P (arrival now (lookup k other) c)
        → Any P (arrivals now other m)
    unfolding arrivals lookup
    arrivals_complete [] c e h = absurd (cc)
    arrivals_complete ((j, v) ∷ m) c e h = elim (Bool-cases (str_eq j k)) [
      | inl b ↦
          let same : v ≡ c = some-injective _ _ (rw b at e) in
          Any-append_left P (arrival now (lookup j other) v) (arrivals now other m)
            (rw ((str_eq_iff j k).0 b, same) h)
      | inr b ↦
          Any-append_right P (arrival now (lookup j other) v) (arrivals now other m)
            (arrivals_complete m c (rw b at e) h)
    ]

    departures_complete :
        (m : Dict (PvcRiskSummary F)) (p : PvcRiskSummary F)
        → lookup k m ≡ some p
        → Any P (departure now (lookup k other) p)
        → Any P (departures now other m)
    unfolding departures lookup
    departures_complete [] p e h = absurd (cc)
    departures_complete ((j, v) ∷ m) p e h = elim (Bool-cases (str_eq j k)) [
      | inl b ↦
          let same : v ≡ p = some-injective _ _ (rw b at e) in
          Any-append_left P (departure now (lookup j other) v) (departures now other m)
            (rw ((str_eq_iff j k).0 b, same) h)
      | inr b ↦
          Any-append_right P (departure now (lookup j other) v) (departures now other m)
            (departures_complete m p (rw b at e) h)
    ]

  module _ (previous current : List (PvcRiskSummary F)) (k : Str) where
    abbrev out : List (PvcRiskChange F)
    out = detect_risk_changes now previous current

    abbrev before : Option (PvcRiskSummary F)
    before = lookup k (by_key previous)

    abbrev after : Option (PvcRiskSummary F)
    after = lookup k (by_key current)

    reports_arrival :
        (P : PvcRiskChange F → Type 0) (c : PvcRiskSummary F)
        → after ≡ some c
        → Any P (arrival now before c)
        → Any P out
    unfolding detect_risk_changes
    reports_arrival P c e h = sort_slice-Any P change_less _ (
        Any-append_left P (arrivals now (by_key previous) (by_key current)) _
          (arrivals_complete P (by_key previous) k (by_key current) c e h))

    reports_departure :
        (P : PvcRiskChange F → Type 0) (p : PvcRiskSummary F)
        → before ≡ some p
        → Any P (departure now after p)
        → Any P out
    unfolding detect_risk_changes
    reports_departure P p e h = sort_slice-Any P change_less _ (
        Any-append_right P (arrivals now (by_key previous) (by_key current)) _
          (departures_complete P (by_key current) k (by_key previous) p e h))

    -- A volume that is among the top risks and was not is reported as new at this time, with no growth
    -- and no date before and its own ones after.
    pub detect_risk_changes_new :
        (c : PvcRiskSummary F)
        → after ≡ some c
        → before ≡ none
        → Any (Reports now (bytes "new") c none (some c)) out
    unfolding arrival
    detect_risk_changes_new c e h =
        reports_arrival (Reports now (bytes "new") c none (some c)) c e
          (rw (h, arrival) (inl (new_change-Reports now c)))

    -- A volume that was among the top risks and is no longer is reported as recovered at this time, with
    -- the growth and the date that it had before and none after.
    pub detect_risk_changes_recovered :
        (p : PvcRiskSummary F)
        → before ≡ some p
        → after ≡ none
        → Any (Reports now (bytes "recovered") p (some p) none) out
    unfolding departure
    detect_risk_changes_recovered p e h =
        reports_departure (Reports now (bytes "recovered") p (some p) none) p e
          (rw (h, departure) (inl (recovered_change-Reports now p)))

    -- A volume that was among the top risks and still is, and whose growth was positive and is more than
    -- 1.2 times as large, whose date is more than a day earlier, or whose alert has come on, is reported
    -- as escalated at this time, with the growth and the date before and after.
    pub detect_risk_changes_escalated :
        (p c : PvcRiskSummary F)
        → before ≡ some p
        → after ≡ some c
        → HasEscalated p c
        → Any (Reports now (bytes "escalated") c (some p) (some c)) out
    unfolding arrival
    detect_risk_changes_escalated p c h e b =
        reports_arrival (Reports now (bytes "escalated") c (some p) (some c)) c e (
          rw (h, arrival, is_escalated_risk-HasEscalated p c b)
            (inl (escalated_change-Reports now p c)))
