-- ===== src/Notify/Message.antt =====
-- renderNotificationMessage: the text of a notification.
use capacity_planning_operat.Prelude.{
  ◌*◌, ◌||◌, List, [], ◌∷◌, ◌++◌, Option, none, some, if◌then◌else◌,
}
use capacity_planning_operat.Prelude.Int.{ℤ, pos}
use capacity_planning_operat.Prelude.Text.{Str, bytes, is_empty, trim_space}
use capacity_planning_operat.Prelude.Time.{format_date}
use capacity_planning_operat.Prelude.Float.{Float64}
use capacity_planning_operat.Api.{CapacityPlan, PvcRiskSummary}

abbrev full_by : Option ℤ → Str
full_by none = []
full_by (some t) = bytes " full by " ++ format_date t

-- A trimmed text with a line break, or nothing.
abbrev paragraph : Str → Str
paragraph s = if is_empty (trim_space s) then [] else trim_space s ++ (b'\n' ∷ [])

module _ {F : Type 0} ⦃float : Float64 F⦄ where
  open float use {of_int, div, fixed}

  risk_line : PvcRiskSummary F → Str
  risk_line r =
      bytes "- "
      ++ r.namespace
      ++ bytes "/"
      ++ r.name
      ++ bytes ": "
      ++ fixed 2 (div r.weekly_growth_bytes_per_day (of_int (pos (1024 * 1024 * 1024))))
      ++ bytes " GiB/day"
      ++ full_by r.projected_full_at
      ++ (if is_empty (trim_space r.workload_kind) || is_empty (trim_space r.workload_name)
          then []
          else bytes " owner=" ++ r.workload_kind ++ bytes "/" ++ r.workload_name)
      ++ (b'\n' ∷ [])

  risk_lines : List (PvcRiskSummary F) → Str
  unfolding risk_line
  risk_lines [] = []
  risk_lines (r ∷ rs) = risk_line r ++ risk_lines rs

  unfoldable pub render_notification_message : CapacityPlan F → Str
  unfolding risk_lines
  render_notification_message plan = trim_space (
      bytes "CapacityPlan "
      ++ plan.name
      ++ (b'\n' ∷ [])
      ++ paragraph plan.status.risk_digest
      ++ paragraph plan.status.risk_change_summary
      ++ risk_lines plan.status.top_risks)
