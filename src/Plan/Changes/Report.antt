-- ===== src/Plan/Changes/Report.antt =====
-- What a reported change has to say, independently of the code that writes it.
use capacity_planning_operat.Prelude.{
  ◌≡◌, refl, true, false, Option, none, some, inl, inr, Bool-cases, arith,
}
use capacity_planning_operat.Prelude.Int.{ℤ, pos, ltb_ℤ, ◌-ℤ◌}
use capacity_planning_operat.Prelude.Text.{Str, bytes}
use capacity_planning_operat.Prelude.Float.{Float64, nought}
use capacity_planning_operat.Api.{PvcRiskSummary, PvcRiskChange}
use capacity_planning_operat.Plan.Changes.{
  is_escalated_risk, moved_earlier, grew_faster, new_change, escalated_change, recovered_change,
}

abbrev pub one_day : ℤ
one_day = pos 86_400_000_000_000

module _ {F : Type 0} ⦃float : Float64 F⦄ where
  open float use {lt, mul, lit}

  -- No growth and no date where there is no risk.
  abbrev pub growth_of : Option (PvcRiskSummary F) → F
  growth_of none = nought
  growth_of (some r) = r.weekly_growth_bytes_per_day

  abbrev pub date_of : Option (PvcRiskSummary F) → Option ℤ
  date_of none = none
  date_of (some r) = r.projected_full_at

  -- A change of the kind, about the volume, at the time, with the growth and the date before and after.
  pub record Reports (now : ℤ) (kind : Str) (volume : PvcRiskSummary F)
      (before after : Option (PvcRiskSummary F)) (x : PvcRiskChange F) : Type 0 where
    pub same_kind : x.change_type ≡ kind
    pub same_namespace : x.namespace ≡ volume.namespace
    pub same_name : x.name ≡ volume.name
    pub growth_before : x.previous_weekly_growth_bytes_per_day ≡ growth_of before
    pub growth_after : x.current_weekly_growth_bytes_per_day ≡ growth_of after
    pub date_before : x.previous_projected_full_at ≡ date_of before
    pub date_after : x.current_projected_full_at ≡ date_of after
    pub at : x.time ≡ now

  -- The growth was positive and is more than 1.2 times as large, the date is more than a day earlier,
  -- or the alert has come on.
  pub data HasEscalated (p c : PvcRiskSummary F) : Type 0 where
    grew :
        lt nought p.weekly_growth_bytes_per_day ≡ true
        → lt (mul p.weekly_growth_bytes_per_day (lit 120 100)) c.weekly_growth_bytes_per_day ≡ true
        → HasEscalated p c
    moved :
        (s t : ℤ)
        → p.projected_full_at ≡ some s
        → c.projected_full_at ≡ some t
        → ltb_ℤ t (s -ℤ one_day) ≡ true
        → HasEscalated p c
    alerted : p.alert_firing ≡ false → c.alert_firing ≡ true → HasEscalated p c

  pub is_escalated_risk-HasEscalated :
      (p c : PvcRiskSummary F) → HasEscalated p c → is_escalated_risk p c ≡ true
  unfolding is_escalated_risk
  is_escalated_risk-HasEscalated p c (grew a b) = rw (a, b) refl
  is_escalated_risk-HasEscalated p c (moved s t a b h) = rw (a, b, h) (ground arith)
  is_escalated_risk-HasEscalated p c (alerted a b) = rw (a, b) (ground arith)

  dates_moved :
      (p c : PvcRiskSummary F) (s t : Option ℤ)
      → p.projected_full_at ≡ s
      → c.projected_full_at ≡ t
      → moved_earlier s t ≡ true
      → HasEscalated p c
  dates_moved p c none t a b h = absurd (ground (arith, h))
  dates_moved p c (some s) none a b h = absurd (ground (arith, h))
  dates_moved p c (some s) (some t) a b h = moved s t a b h

  pub HasEscalated-is_escalated_risk :
      (p c : PvcRiskSummary F) → is_escalated_risk p c ≡ true → HasEscalated p c
  unfolding is_escalated_risk
  HasEscalated-is_escalated_risk p c h =
      let before = p.weekly_growth_bytes_per_day in
      let after = c.weekly_growth_bytes_per_day in
      elim (Bool-cases (grew_faster before after)) [
        | inl e ↦ grew (ground (arith, e)) (ground (arith, e))
        | inr e ↦ elim (Bool-cases (moved_earlier p.projected_full_at c.projected_full_at)) [
          | inl d ↦ dates_moved p c p.projected_full_at c.projected_full_at refl refl d
          | inr d ↦ alerted (ground (arith, e, d, h)) (ground (arith, e, d, h))
        ]
      ]

  -- The three records say what they have to.
  pub new_change-Reports :
      (now : ℤ) (c : PvcRiskSummary F)
      → Reports now (bytes "new") c none (some c) (new_change now c)
  new_change-Reports now c = record {
    same_kind = refl;
    same_namespace = refl;
    same_name = refl;
    growth_before = refl;
    growth_after = refl;
    date_before = refl;
    date_after = refl;
    at = refl;
  }

  pub escalated_change-Reports :
      (now : ℤ) (p c : PvcRiskSummary F)
      → Reports now (bytes "escalated") c (some p) (some c) (escalated_change now p c)
  escalated_change-Reports now p c = record {
    same_kind = refl;
    same_namespace = refl;
    same_name = refl;
    growth_before = refl;
    growth_after = refl;
    date_before = refl;
    date_after = refl;
    at = refl;
  }

  pub recovered_change-Reports :
      (now : ℤ) (p : PvcRiskSummary F)
      → Reports now (bytes "recovered") p (some p) none (recovered_change now p)
  recovered_change-Reports now p = record {
    same_kind = refl;
    same_namespace = refl;
    same_name = refl;
    growth_before = refl;
    growth_after = refl;
    date_before = refl;
    date_after = refl;
    at = refl;
  }
