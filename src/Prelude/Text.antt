-- ===== src/Prelude/Text.antt =====
-- Go strings: sequences of bytes, compared bytewise.
use Prim.Native.Char.{code}
use Prim.Native.String.{String}
use capacity_planning_operat.Prelude.{
  ℕ, zero, suc, ◌+◌, ◌/◌, ◌%◌, ◌≡◌, refl, ◌↔◌, Bool, true, false, ◌&&◌, ◌||◌, List, [], ◌∷◌, ◌++◌,
  Option, none, some, arith, ltb, ◌==◌, if◌then◌else◌,
}
use mathlib.Core.List.{reverse}

abbrev pub Str : Type 0
Str = List ℕ

-- The bytes of a literal, which is ASCII throughout the source.
abbrev pub bytes : String → Str
bytes String.[] = []
bytes (String.◌∷◌ c s) = code c ∷ bytes s

abbrev pub is_empty : Str → Bool
is_empty [] = true
is_empty (c ∷ s) = false

-- `a == b` and `a < b` on strings.
unfoldable pub str_eq : Str → Str → Bool
str_eq [] [] = true
str_eq (a ∷ s) (b ∷ t) = a == b && str_eq s t
str_eq _ _ = false

unfoldable pub str_lt : Str → Str → Bool
str_lt [] [] = false
str_lt [] (b ∷ t) = true
str_lt (a ∷ s) [] = false
str_lt (a ∷ s) (b ∷ t) = ltb a b || (a == b && str_lt s t)

pub str_eq_iff : (s t : Str) → (str_eq s t ≡ true) ↔ (s ≡ t)
unfolding str_eq
str_eq_iff [] [] = ground arith
str_eq_iff [] (b ∷ t) = ground arith
str_eq_iff (a ∷ s) [] = ground arith
str_eq_iff (a ∷ s) (b ∷ t) = ground (arith, str_eq_iff s t)

pub str_eq_refl : (s : Str) → str_eq s s ≡ true
str_eq_refl s = (str_eq_iff s s).1 refl

pub str_lt_irrefl : (s : Str) → str_lt s s ≡ false
unfolding str_lt
str_lt_irrefl [] = refl
str_lt_irrefl (a ∷ s) = ground (arith, str_lt_irrefl s)

pub str_lt_trans : (s t u : Str) → str_lt s t ≡ true → str_lt t u ≡ true → str_lt s u ≡ true
unfolding str_lt
str_lt_trans [] [] u p q = q
str_lt_trans [] (b ∷ t) [] p q = q
str_lt_trans [] (b ∷ t) (c ∷ u) p q = refl
str_lt_trans (a ∷ s) [] u p q = ground arith
str_lt_trans (a ∷ s) (b ∷ t) [] p q = ground arith
str_lt_trans (a ∷ s) (b ∷ t) (c ∷ u) p q = ground (arith, str_lt_trans s t u)

-- Two strings neither of which is less are equal.
pub str_lt_total : (s t : Str) → str_lt s t ≡ false → str_lt t s ≡ false → s ≡ t
unfolding str_lt
str_lt_total [] [] p q = refl
str_lt_total [] (b ∷ t) p q = ground arith
str_lt_total (a ∷ s) [] p q = ground arith
str_lt_total (a ∷ s) (b ∷ t) p q = ground (arith, str_lt_total s t)

-- `strings.HasPrefix`, as the rest behind the prefix.
strip_prefix : Str → Str → Option Str
strip_prefix [] s = some s
strip_prefix (a ∷ p) [] = none
strip_prefix (a ∷ p) (b ∷ s) = if a == b then strip_prefix p s else none

-- What `unicode.IsSpace` accepts, in UTF-8.
abbrev spaces : List Str
spaces =
    (0x20 ∷ [])
    ∷ (0x09 ∷ [])
    ∷ (0x0a ∷ [])
    ∷ (0x0b ∷ [])
    ∷ (0x0c ∷ [])
    ∷ (0x0d ∷ [])
    ∷ (0xc2 ∷ 0x85 ∷ [])
    ∷ (0xc2 ∷ 0xa0 ∷ [])
    ∷ (0xe1 ∷ 0x9a ∷ 0x80 ∷ [])
    ∷ (0xe2 ∷ 0x80 ∷ 0x80 ∷ [])
    ∷ (0xe2 ∷ 0x80 ∷ 0x81 ∷ [])
    ∷ (0xe2 ∷ 0x80 ∷ 0x82 ∷ [])
    ∷ (0xe2 ∷ 0x80 ∷ 0x83 ∷ [])
    ∷ (0xe2 ∷ 0x80 ∷ 0x84 ∷ [])
    ∷ (0xe2 ∷ 0x80 ∷ 0x85 ∷ [])
    ∷ (0xe2 ∷ 0x80 ∷ 0x86 ∷ [])
    ∷ (0xe2 ∷ 0x80 ∷ 0x87 ∷ [])
    ∷ (0xe2 ∷ 0x80 ∷ 0x88 ∷ [])
    ∷ (0xe2 ∷ 0x80 ∷ 0x89 ∷ [])
    ∷ (0xe2 ∷ 0x80 ∷ 0x8a ∷ [])
    ∷ (0xe2 ∷ 0x80 ∷ 0xa8 ∷ [])
    ∷ (0xe2 ∷ 0x80 ∷ 0xa9 ∷ [])
    ∷ (0xe2 ∷ 0x80 ∷ 0xaf ∷ [])
    ∷ (0xe2 ∷ 0x81 ∷ 0x9f ∷ [])
    ∷ (0xe3 ∷ 0x80 ∷ 0x80 ∷ [])
    ∷ []

-- The first of the given texts that begins `s` is dropped.
drop_space : List Str → Str → Option Str
drop_space [] s = none
drop_space (p ∷ ps) s = elim (strip_prefix p s) [ some r ↦ some r | none ↦ drop_space ps s ]

-- Each round drops a character, so a string's length is fuel enough.
trim_start : List Str → ℕ → Str → Str
trim_start ps zero s = s
trim_start ps (suc n) s = elim (drop_space ps s) [ none ↦ s | some r ↦ trim_start ps n r ]

abbrev size : Str → ℕ
size [] = 0
size (c ∷ s) = suc (size s)

abbrev reversed : List Str → List Str
reversed [] = []
reversed (p ∷ ps) = reverse p ∷ reversed ps

-- `strings.TrimSpace`.
unfoldable pub trim_space : Str → Str
unfolding drop_space strip_prefix trim_start
trim_space s =
    let front = trim_start spaces (size s) s in
    reverse (trim_start (reversed spaces) (size front) (reverse front))

-- `strings.HasSuffix`, and `strings.TrimRight(s, "/")`.
unfoldable pub has_suffix : Str → Str → Bool
unfolding strip_prefix
has_suffix p s = elim (strip_prefix (reverse p) (reverse s)) [ some r ↦ true | none ↦ false ]

abbrev drop_slashes : Str → Str
drop_slashes [] = []
drop_slashes (c ∷ s) = if c == b'/' then drop_slashes s else c ∷ s

unfoldable pub trim_slashes : Str → Str
trim_slashes s = reverse (drop_slashes (reverse s))

-- `strings.Join`.
unfoldable pub join : Str → List Str → Str
join sep [] = []
join sep (s ∷ []) = s
join sep (s ∷ t ∷ ss) = s ++ (sep ++ join sep (t ∷ ss))

-- `strconv.Itoa` of a number that is not negative; a digit for each round, so `n` rounds suffice.
digits_of : ℕ → ℕ → Str → Str
digits_of zero n out = out
digits_of (suc k) n out =
    let more = digits_of k (n / 10) ((b'0' + n % 10) ∷ out) in if n == 0 then out else more

unfoldable pub itoa : ℕ → Str
unfolding digits_of
itoa n = if n == 0 then b'0' ∷ [] else digits_of n n []

-- `strings.EqualFold` on ASCII letters.
abbrev lower : ℕ → ℕ
lower c = if not_upper c then c else c + 32
  where
    not_upper : ℕ → Bool
    not_upper k = ltb k b'A' || ltb b'Z' k

unfoldable pub equal_fold : Str → Str → Bool
equal_fold [] [] = true
equal_fold (a ∷ s) (b ∷ t) = lower a == lower b && equal_fold s t
equal_fold _ _ = false

trimmed : trim_space (bytes " a b ") ≡ bytes "a b"
unfolding trim_space
trimmed = refl

numbered : itoa 407 ≡ bytes "407"
unfolding itoa
numbered = refl
