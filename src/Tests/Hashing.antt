-- ===== src/Tests/Hashing.antt =====
-- The hashes at concrete risks and forecasts.
use mathlib.Core.List.Perm
use capacity_planning_operat.Prelude.{◌≡◌, refl, [], ◌∷◌}
use capacity_planning_operat.Prelude.Int.{pos}
use capacity_planning_operat.Prelude.Text.{Str, bytes, str_eq}
use capacity_planning_operat.Prelude.Float.{Milli, milli_float}
use capacity_planning_operat.Api.{StorageBudgetForecast}
use capacity_planning_operat.Plan.Hash.{compute_risk_snapshot_hash}
use capacity_planning_operat.Plan.Hash.Unordered.{compute_risk_snapshot_hash_unordered}
use capacity_planning_operat.Tests.{disk, risk}
use capacity_planning_operat.Tests.Advice.{forecast_of_shop}

-- In place of SHA-256 the text itself.
abbrev as_is : Str → Str
as_is s = s

abbrev logs : Str
logs = bytes "logs"

compute_risk_snapshot_hash_unordered_example :
    compute_risk_snapshot_hash as_is (risk disk 5 ∷ risk logs 7 ∷ [])
    ≡ compute_risk_snapshot_hash as_is (risk logs 7 ∷ risk disk 5 ∷ [])
unfolding str_eq
compute_risk_snapshot_hash_unordered_example =
    compute_risk_snapshot_hash_unordered as_is (Perm.swap (risk logs 7) (risk disk 5) [])
      ((refl, tt), (tt, tt))

abbrev other_forecast : StorageBudgetForecast Milli
other_forecast = record forecast_of_shop { namespace = logs; budget_bytes = pos 5 }
