-- ===== src/Prelude/Duration.antt =====
-- `time.Duration.String`.
use capacity_planning_operat.Prelude.{
  ℕ, zero, suc, ◌+◌, ◌/◌, ◌%◌, ◌≡◌, refl, [], ◌∷◌, ◌++◌, ltb, ◌==◌, if◌then◌else◌,
}
use capacity_planning_operat.Prelude.Int.{ℤ, pos, negsuc}
use capacity_planning_operat.Prelude.Text.{Str, bytes, itoa}

-- The last `n` digits of `v` as a fraction, without the zeros that it ends with; `out` has the digits
-- that are printed already.
abbrev fraction : ℕ → ℕ → Str → Str
fraction zero v [] = []
fraction zero v (c ∷ out) = b'.' ∷ c ∷ out
fraction (suc n) v [] =
    let rest = fraction n (v / 10) [] in
    let digits = fraction n (v / 10) ((b'0' + v % 10) ∷ []) in if v % 10 == 0 then rest else digits
fraction (suc n) v (c ∷ out) = fraction n (v / 10) ((b'0' + v % 10) ∷ c ∷ out)

-- Below a second one unit is enough.
abbrev small : ℕ → Str
small u =
    if u == 0
    then bytes "0s"
    else (if ltb u 1000
        then itoa u ++ bytes "ns"
        else (if ltb u 1_000_000
            then itoa (u / 1000) ++ fraction 3 u [] ++ (0xc2 ∷ 0xb5 ∷ b's' ∷ [])
            else itoa (u / 1_000_000) ++ fraction 6 u [] ++ bytes "ms"))

abbrev minutes_of : ℕ → Str
minutes_of m =
    if m == 0
    then []
    else (if m / 60 == 0 then [] else itoa (m / 60) ++ bytes "h") ++ itoa (m % 60) ++ bytes "m"

abbrev magnitude_text : ℕ → Str
magnitude_text u =
    let s = u / 1_000_000_000 in
    if ltb u 1_000_000_000
    then small u
    else minutes_of (s / 60) ++ itoa (s % 60) ++ fraction 9 u [] ++ bytes "s"

unfoldable pub duration_string : ℤ → Str
unfolding itoa
duration_string (pos n) = magnitude_text n
duration_string (negsuc n) = b'-' ∷ magnitude_text (suc n)

ninety_minutes : duration_string (pos 5_400_000_000_000) ≡ bytes "1h30m0s"
unfolding duration_string
ninety_minutes = refl

fifteen_and_a_half : duration_string (negsuc 15_499_999_999) ≡ bytes "-15.5s"
unfolding duration_string
fifteen_and_a_half = refl

some_milliseconds : duration_string (pos 120_050_000) ≡ bytes "120.05ms"
unfolding duration_string
some_milliseconds = refl
