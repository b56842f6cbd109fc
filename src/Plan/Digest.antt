-- ===== src/Plan/Digest.antt =====
-- buildRiskDigest and trimForAnnotation of internal/controller/capacityplan_controller.go: the text on
-- the top risks that goes into the alerts' annotations.
use capacity_planning_operat.Prelude.{
  ℕ, ◌-◌, ◌*◌, ◌≤◌, ◌<◌, ◌||◌, ◌&&◌, not, List, [], ◌∷◌, ◌++◌, Option, none, some, leb,
  if◌then◌else◌, length, take, map, arith, inl, inr, Bool-cases, length-take, length-append,
}
use capacity_planning_operat.Prelude.Int.{ℤ, pos, leb_ℤ, pos_part}
use capacity_planning_operat.Prelude.Text.{Str, bytes, is_empty, trim_space, join}
use capacity_planning_operat.Prelude.Time.{format_date}
use capacity_planning_operat.Prelude.Float.{Float64, nought}
use capacity_planning_operat.Api.{PvcRiskSummary}

abbrev no_digest : Str
no_digest = bytes "No risk digest available."

-- The cut of a text that is longer than `max`.
cut : Str → ℕ → Str
cut s max = if leb max 3 then take max s else take (max - 3) s ++ bytes "..."

unfoldable pub trim_for_annotation : Str → ℤ → Str
unfolding cut
trim_for_annotation value max =
    let s = trim_space value in
    if is_empty s
    then no_digest
    else (if leb_ℤ max (pos 0) || leb_ℤ (pos (length s)) max then s else cut s (pos_part max))

abbrev date_part : Option ℤ → Str
date_part none = []
date_part (some t) = bytes " (full by " ++ format_date t ++ bytes ")"

module _ {F : Type 0} ⦃float : Float64 F⦄ where
  open float use {of_int, lit, mul, div, lt, signed_fixed, fixed}

  abbrev owner_part : PvcRiskSummary F → Str
  owner_part r =
      if not (is_empty (trim_space r.workload_kind)) && not (is_empty (trim_space r.workload_name))
      then bytes " [owner " ++ r.workload_kind ++ bytes "/" ++ r.workload_name ++ bytes "]"
      else []

  -- The body of the loop.
  digest_entry : PvcRiskSummary F → Str
  unfolding trim_for_annotation
  digest_entry r =
      r.namespace
      ++ bytes "/"
      ++ r.name
      ++ bytes " "
      ++ signed_fixed 1 (div r.weekly_growth_bytes_per_day (of_int (pos (1024 * 1024 * 1024))))
      ++ bytes " GiB/day"
      ++ owner_part r
      ++ date_part r.projected_full_at
      ++ (if lt (lit 15 100) r.growth_acceleration
          then bytes ", accelerating "
            ++ signed_fixed 0 (mul r.growth_acceleration (lit 100 1))
            ++ bytes "%"
          else [])
      ++ (if lt nought r.confidence_r2 then bytes ", R2 " ++ fixed 2 r.confidence_r2 else [])
      ++ (if is_empty (trim_space r.llm_insight)
          then []
          else bytes ", insight: " ++ trim_for_annotation (trim_space r.llm_insight) (pos 90))

  unfoldable pub build_risk_digest : ℤ → List (PvcRiskSummary F) → Str
  unfolding digest_entry
  build_risk_digest now [] = bytes "No PVCs currently show a positive weekly growth trend."
  build_risk_digest now (r ∷ rs) =
      bytes "Top PVC growth trends (weekly basis, as of "
      ++ format_date now
      ++ bytes "): "
      ++ join (bytes "; ") (map digest_entry (r ∷ rs))
      ++ bytes "."

length-cut : (s : Str) (max : ℕ) → length (cut s max) ≤ max
unfolding cut
length-cut s max = elim (Bool-cases (leb max 3)) [
  | inl e ↦ rw e (omega (arith, length-take max s))
  | inr e ↦
      let big : 3 < max = ground (arith, e) in
      rw e (
        omega (arith, big, length-append (take (max - 3) s) (bytes "..."), length-take (max - 3) s))
]

-- An annotation that may have 25 bytes or more never has more bytes than it may.
pub length-trim_for_annotation :
    (value : Str) (max : ℕ) → 25 ≤ max → length (trim_for_annotation value (pos max)) ≤ max
unfolding trim_for_annotation
length-trim_for_annotation value max room =
    let s = trim_space value in
    elim (Bool-cases (is_empty s)) [
      | inl e ↦ rw e room
      | inr e ↦ elim (Bool-cases (leb_ℤ (pos max) (pos 0) || leb_ℤ (pos (length s)) (pos max))) [
        | inl f ↦ rw (e, f) (ground (arith, f, room))
        | inr f ↦ rw (e, f) (length-cut s max)
      ]
    ]
