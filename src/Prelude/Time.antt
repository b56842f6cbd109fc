-- ===== src/Prelude/Time.antt =====
-- How Go's `time` prints an instant in UTC, for the layouts that the code uses. Instants are in
-- nanoseconds since 1970, and from year 1 on, as Go's zero time is.
use capacity_planning_operat.Prelude.{
  ℕ, ◌+◌, ◌-◌, ◌*◌, ◌/◌, ◌%◌, ◌≡◌, refl, ◌∷◌, ◌++◌, ltb, leb, if◌then◌else◌,
}
use capacity_planning_operat.Prelude.Int.{ℤ, pos, ◌+ℤ◌, pos_part, floor_div}
use capacity_planning_operat.Prelude.Text.{Str, bytes, itoa}

abbrev nanos_per_day : ℕ
nanos_per_day = 86_400_000_000_000

pub record Civil : Type 0 where
  pub year : ℕ
  pub month : ℕ
  pub day : ℕ

-- The Gregorian date of a day, counted from the first of March of year 0.
unfoldable pub civil_of : ℕ → Civil
civil_of z =
    let era = z / 146_097 in
    let doe = z % 146_097 in
    let yoe = (doe + doe / 36_524 - doe / 1_460 - doe / 146_096) / 365 in
    let doy = doe - (365 * yoe + yoe / 4 - yoe / 100) in
    let mp = (5 * doy + 2) / 153 in
    let month = if ltb mp 10 then mp + 3 else mp - 9 in
    let year = yoe + era * 400 in
    record {
      year = if leb month 2 then year + 1 else year;
      month = month;
      day = doy - (153 * mp + 2) / 5 + 1;
    }

abbrev pub two_digits : ℕ → Str
two_digits n = if ltb n 10 then b'0' ∷ itoa n else itoa n

abbrev four_digits : ℕ → Str
four_digits n =
    if ltb n 10
    then bytes "000" ++ itoa n
    else (if ltb n 100
        then bytes "00" ++ itoa n
        else (if ltb n 1000 then bytes "0" ++ itoa n else itoa n))

abbrev day_number : ℤ → ℕ
day_number t = pos_part (floor_div t nanos_per_day +ℤ pos 719_468)

-- `t.UTC().Format("2006-01-02")`.
unfoldable pub format_date : ℤ → Str
unfolding civil_of itoa
format_date t =
    let c = civil_of (day_number t) in
    four_digits c.year ++ (bytes "-" ++ (two_digits c.month ++ (bytes "-" ++ two_digits c.day)))

abbrev second_of_day : ℤ → ℕ
second_of_day t = pos_part (floor_div t 1_000_000_000 +ℤ pos (719_468 * 86_400)) % 86_400

-- `t.UTC().Format(time.RFC3339)`.
unfoldable pub format_rfc3339 : ℤ → Str
unfolding format_date itoa
format_rfc3339 t =
    let s = second_of_day t in
    format_date t
    ++ (bytes "T"
        ++ (two_digits (s / 3600)
            ++ (bytes ":"
                ++ (two_digits (s / 60 % 60)
                    ++ (bytes ":" ++ (two_digits (s % 60) ++ bytes "Z"))))))

printed : format_rfc3339 (pos 1_709_210_096_000_000_000) ≡ bytes "2024-02-29T12:34:56Z"
unfolding format_rfc3339 floor_div ◌+ℤ◌
printed = refl
