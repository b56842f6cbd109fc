-- ===== src/Plan/Changes/Detection.antt =====
-- Every reported change has its reason in the two sets of risks.
use capacity_planning_operat.Prelude.{
  ◌≡◌, refl, List, [], ◌∷◌, Option, none, some, inl, inr, All, Bool-cases,
}
use capacity_planning_operat.Prelude.Int.{ℤ}
use capacity_planning_operat.Prelude.Text.{Str, bytes}
use capacity_planning_operat.Prelude.Sort.{sort_slice-All}
use capacity_planning_operat.Prelude.Members.{All-append}
use capacity_planning_operat.Prelude.Dict.{
  Dict, lookup, insert, IsUnique, AllEntries, insert-IsUnique, IsUnique-lookup,
}
use capacity_planning_operat.Prelude.Float.{Float64}
use capacity_planning_operat.Api.{PvcRiskSummary, PvcRiskChange}
use capacity_planning_operat.Metrics.{key_of}
use capacity_planning_operat.Plan.Changes.{
  index_risks, by_key, is_escalated_risk, arrival, departure, arrivals, departures,
  detect_risk_changes, change_less,
}
use capacity_planning_operat.Plan.Changes.Report.{
  Reports, HasEscalated, new_change-Reports, escalated_change-Reports, recovered_change-Reports,
  HasEscalated-is_escalated_risk,
}

module _ {F : Type 0} where
  index_risks-IsUnique :
      (m : Dict (PvcRiskSummary F)) (rs : List (PvcRiskSummary F))
      → IsUnique m
      → IsUnique (index_risks m rs)
  unfolding index_risks
  index_risks-IsUnique m [] u = u
  index_risks-IsUnique m (r ∷ rs) u =
      index_risks-IsUnique (insert (key_of r.namespace r.name) r m) rs
        (insert-IsUnique (key_of r.namespace r.name) r m u)

  by_key-lookup :
      (rs : List (PvcRiskSummary F)) → AllEntries (λ k v. lookup k (by_key rs) ≡ some v) (by_key rs)
  by_key-lookup rs = IsUnique-lookup (by_key rs) (index_risks-IsUnique [] rs tt)

module _ {F : Type 0} ⦃float : Float64 F⦄ (now : ℤ) where
  -- Why a change is reported, given the risks by key before and now.
  pub data IsExplained (prev curr : Dict (PvcRiskSummary F)) : PvcRiskChange F → Type 0 where
    appeared :
        (k : Str) (c : PvcRiskSummary F) {x : PvcRiskChange F}
        → lookup k curr ≡ some c
        → lookup k prev ≡ none
        → Reports now (bytes "new") c none (some c) x
        → IsExplained prev curr x
    worsened :
        (k : Str) (p c : PvcRiskSummary F) {x : PvcRiskChange F}
        → lookup k curr ≡ some c
        → lookup k prev ≡ some p
        → HasEscalated p c
        → Reports now (bytes "escalated") c (some p) (some c) x
        → IsExplained prev curr x
    vanished :
        (k : Str) (p : PvcRiskSummary F) {x : PvcRiskChange F}
        → lookup k prev ≡ some p
        → lookup k curr ≡ none
        → Reports now (bytes "recovered") p (some p) none x
        → IsExplained prev curr x

  module _ (prev curr : Dict (PvcRiskSummary F)) where
    arrival_sound :
        (k : Str) (c : PvcRiskSummary F) (o : Option (PvcRiskSummary F))
        → lookup k curr ≡ some c
        → lookup k prev ≡ o
        → All (IsExplained prev curr) (arrival now o c)
    unfolding arrival
    arrival_sound k c none e h = (appeared k c e h (new_change-Reports now c), tt)
    arrival_sound k c (some p) e h = elim (Bool-cases (is_escalated_risk p c)) [
      | inl b ↦ rw b (
        worsened k p c e h (HasEscalated-is_escalated_risk p c b)
            (escalated_change-Reports now p c),
        tt,
      )
      | inr b ↦ rw b tt
    ]

    departure_sound :
        (k : Str) (p : PvcRiskSummary F) (o : Option (PvcRiskSummary F))
        → lookup k prev ≡ some p
        → lookup k curr ≡ o
        → All (IsExplained prev curr) (departure now o p)
    unfolding departure
    departure_sound k p none e h = (vanished k p e h (recovered_change-Reports now p), tt)
    departure_sound k p (some c) e h = tt

    arrivals_sound :
        (m : Dict (PvcRiskSummary F))
        → AllEntries (λ k v. lookup k curr ≡ some v) m
        → All (IsExplained prev curr) (arrivals now prev m)
    unfolding arrivals
    arrivals_sound [] h = tt
    arrivals_sound ((k, c) ∷ m) (e, h) =
        All-append (IsExplained prev curr) (arrival now (lookup k prev) c) (arrivals now prev m)
          (arrival_sound k c (lookup k prev) e refl) (arrivals_sound m h)

    departures_sound :
        (m : Dict (PvcRiskSummary F))
        → AllEntries (λ k v. lookup k prev ≡ some v) m
        → All (IsExplained prev curr) (departures now curr m)
    unfolding departures
    departures_sound [] h = tt
    departures_sound ((k, p) ∷ m) (e, h) =
        All-append (IsExplained prev curr) (departure now (lookup k curr) p) (departures now curr m)
          (departure_sound k p (lookup k curr) e refl) (departures_sound m h)

  -- Every reported change has the time of the report and tells, of a volume that it names with its growth
  -- and its date before and after, one of these: as new, that it is among the top risks and was not; as
  -- recovered, that it was and is not; or as escalated, that it was and is, and that its growth was
  -- positive and is more than 1.2 times as large, its date is more than a day earlier, or its alert has
  -- come on.
  pub detect_risk_changes_sound :
      (previous current : List (PvcRiskSummary F))
      → All
          (IsExplained (by_key previous) (by_key current))
          (detect_risk_changes now previous current)
  unfolding detect_risk_changes
  detect_risk_changes_sound previous current =
      let prev = by_key previous in
      let curr = by_key current in
      sort_slice-All change_less (IsExplained prev curr) _ (
        All-append (IsExplained prev curr) (arrivals now prev curr) (departures now curr prev)
          (arrivals_sound prev curr curr (by_key-lookup current))
          (departures_sound prev curr prev (by_key-lookup previous)))
