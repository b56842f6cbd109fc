-- ===== src/Prelude/Atoi.antt =====
-- `strconv.Atoi`, of which the code looks at the error.
use capacity_planning_operat.Prelude.{
  ℕ, ◌+◌, ◌-◌, ◌*◌, ◌^◌, ◌||◌, [], ◌∷◌, Option, none, some, ltb, ◌==◌, if◌then◌else◌, ◌≡◌, refl,
}
use capacity_planning_operat.Prelude.Text.{Str, bytes}

pub data NumError : Type 0 where
  syntax out_of_range : NumError

pub data Parsed : Type 0 where
  number : ℕ → Parsed
  failed : NumError → Parsed

-- The loop of `strconv.ParseUint`, which stops at the first fault.
parse_digits : ℕ → Str → Parsed
parse_digits n [] = number n
parse_digits n (c ∷ s) =
    let m = n * 10 + (c - b'0') in
    let rest = parse_digits m s in
    if ltb c b'0' || ltb b'9' c
    then failed syntax
    else (if ltb (2 ^ 64 - 1) m then failed out_of_range else rest)

parse_uint : Str → Parsed
unfolding parse_digits
parse_uint [] = failed syntax
parse_uint (c ∷ s) = parse_digits 0 (c ∷ s)

-- The magnitude is at most 2^63, and less if the number is not negative.
in_range : ℕ → Parsed → Option NumError
in_range limit (failed e) = some e
in_range limit (number n) = if ltb limit n then some out_of_range else none

unfoldable pub atoi_error : Str → Option NumError
unfolding parse_uint in_range
atoi_error [] = some syntax
atoi_error (c ∷ s) =
    if c == b'-'
    then in_range (2 ^ 63) (parse_uint s)
    else (if c == b'+'
        then in_range (2 ^ 63 - 1) (parse_uint s)
        else in_range (2 ^ 63 - 1) (parse_uint (c ∷ s)))

abbrev pub num_error_text : NumError → Str
num_error_text syntax = bytes "invalid syntax"
num_error_text out_of_range = bytes "value out of range"

a_port : atoi_error (bytes "-587") ≡ none
unfolding atoi_error
a_port = refl

too_large : atoi_error (bytes "18446744073709551616x") ≡ some out_of_range
unfolding atoi_error
too_large = refl

no_digits : atoi_error (bytes "+") ≡ some syntax
unfolding atoi_error
no_digits = refl
