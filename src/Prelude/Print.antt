-- ===== src/Prelude/Print.antt =====
-- How `fmt` prints what is neither a string nor a float.
use capacity_planning_operat.Prelude.{suc, Bool, true, false, ◌∷◌, ◌++◌, []}
use capacity_planning_operat.Prelude.Int.{ℤ, pos, negsuc}
use capacity_planning_operat.Prelude.Text.{Str, bytes, itoa}

-- `%d`, `%t`, and `%q` of a text in which nothing needs escaping.
abbrev pub show_int : ℤ → Str
show_int (pos n) = itoa n
show_int (negsuc n) = b'-' ∷ itoa (suc n)

abbrev pub show_bool : Bool → Str
show_bool true = bytes "true"
show_bool false = bytes "false"

abbrev pub quoted : Str → Str
quoted s = 34 ∷ s ++ (34 ∷ [])
