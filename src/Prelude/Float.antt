-- ===== src/Prelude/Float.antt =====
-- Go's float64, as the operations that the code calls. There are no floating-point numbers in the
-- logic, so the type and its operations are a parameter, and the laws that a theorem needs are named;
-- all of them hold of IEEE 754 with rounding to nearest.
use capacity_planning_operat.Prelude.{
  ℕ, zero, suc, refl, ◌*◌, ◌/◌, ◌≡◌, Bool, true, false, Option, none, some, arith, if◌then◌else◌,
}
use capacity_planning_operat.Prelude.Int.{
  ℤ, pos, negsuc, ◌+ℤ◌, ◌-ℤ◌, ◌*ℤ◌, ltb_ℤ, leb_ℤ, eqb_ℤ, quot,
}
use capacity_planning_operat.Prelude.Text.{Str}
use capacity_planning_operat.Prelude.Print.{show_int}

pub record Float64 (F : Type 0) : Type 0 where
  -- `float64(n)` of an integer, and the literal n / d.
  pub of_int : ℤ → F
  pub lit : ℕ → ℕ → F
  pub add : F → F → F
  pub sub : F → F → F
  pub mul : F → F → F
  pub div : F → F → F
  pub abs : F → F
  pub max : F → F → F
  pub lt : F → F → Bool
  pub le : F → F → Bool
  pub eq : F → F → Bool
  pub is_nan : F → Bool
  pub is_inf : F → Bool
  -- `math.MaxFloat64`.
  pub max_float : F
  -- `int64(x)` and `time.Duration(x)`.
  pub to_int : F → ℤ
  -- `%.Nf`, `%+0.Nf`, and `strconv.ParseFloat`, with `none` for its error.
  pub fixed : ℕ → F → Str
  pub signed_fixed : ℕ → F → Str
  pub parse : Str → Option F

module _ {F : Type 0} ⦃f : Float64 F⦄ where
  abbrev pub nought : F
  nought = f.of_int (pos 0)

  -- A float that is not NaN equals itself.
  abbrev pub IsNumber : F → Type 0
  IsNumber x = f.eq x x ≡ true

  -- Not below zero; NaN counts as such.
  abbrev pub NotBelowZero : F → Type 0
  NotBelowZero x = f.lt x nought ≡ false

module _ (F : Type 0) ⦃f : Float64 F⦄ where
  -- `<` orders the numbers, and `==` is its equivalence.
  pub record IsOrdered : Type 0 where
    pub lt_irrefl : (x : F) → f.lt x x ≡ false
    pub lt_trans : (x y z : F) → f.lt x y ≡ true → f.lt y z ≡ true → f.lt x z ≡ true
    pub lt_eq : (x y z : F) → f.lt x y ≡ true → f.eq y z ≡ true → f.lt x z ≡ true
    pub eq_lt : (x y z : F) → f.eq x y ≡ true → f.lt y z ≡ true → f.lt x z ≡ true
    pub eq_sym : (x y : F) → f.eq x y ≡ true → f.eq y x ≡ true
    pub eq_trans : (x y z : F) → f.eq x y ≡ true → f.eq y z ≡ true → f.eq x z ≡ true

  -- Signs of results.
  pub record HasSigns : Type 0 where
    pub add_sign : (x y : F) → NotBelowZero x → NotBelowZero y → NotBelowZero (f.add x y)
    pub square_sign : (x : F) → NotBelowZero (f.mul x x)
    pub div_sign : (x y : F) → NotBelowZero x → f.lt nought y ≡ true → NotBelowZero (f.div x y)
    pub sub_le : (x y : F) → NotBelowZero y → f.lt x (f.sub x y) ≡ false
    pub zero_sign : NotBelowZero (f.of_int (pos 0))
    pub not_below : (x : F) → f.le x nought ≡ false → NotBelowZero x

-- The laws can be met: thousandths, with `none` for NaN.
abbrev pub Milli : Type 0
Milli = Option ℤ

abbrev lift : (ℤ → ℤ → ℤ) → Milli → Milli → Milli
lift op (some a) (some b) = some (op a b)
lift op _ _ = none

abbrev test : (ℤ → ℤ → Bool) → Milli → Milli → Bool
test op (some a) (some b) = op a b
test op _ _ = false

-- a * k / d, rounded towards zero; division by zero is NaN.
abbrev div_milli : Milli → Milli → Milli
div_milli (some a) (some (pos (suc n))) = some (quot (a *ℤ pos 1000) (suc n))
div_milli (some a) (some (negsuc n)) = some (pos 0 -ℤ quot (a *ℤ pos 1000) (suc n))
div_milli _ _ = none

abbrev is_none : Milli → Bool
is_none none = true
is_none (some a) = false

abbrev magnitude : ℤ → ℤ
magnitude (pos n) = pos n
magnitude (negsuc n) = pos (suc n)

abbrev whole : Milli → ℤ
whole none = pos 0
whole (some a) = quot a 1000

instance abbrev pub milli_float : Float64 Milli
milli_float = record {
  of_int = λ n. some (n *ℤ pos 1000);
  lit = λ n d. some (pos (n * 1000 / d));
  add = lift ◌+ℤ◌;
  sub = lift ◌-ℤ◌;
  mul = lift (λ a b. quot (a *ℤ b) 1000);
  div = div_milli;
  max = λ x y. if test ltb_ℤ x y then y else x;
  abs = λ x. elim x [ none ↦ none | some a ↦ some (magnitude a) ];
  lt = test ltb_ℤ;
  le = test leb_ℤ;
  eq = test eqb_ℤ;
  is_nan = is_none;
  is_inf = λ x. false;
  max_float = some (pos 1_000_000_000_000_000_000_000);
  to_int = whole;
  fixed = λ n x. show_int (whole x);
  signed_fixed = λ n x. show_int (whole x);
  parse = λ s. none;
}

pub Milli-IsOrdered : IsOrdered Milli
Milli-IsOrdered = ground arith

add_sign_milli : (x y : Milli) → NotBelowZero x → NotBelowZero y → NotBelowZero (lift ◌+ℤ◌ x y)
unfolding ◌+ℤ◌ ◌*ℤ◌
add_sign_milli x y p q = ground arith

square_sign_milli : (x : Milli) → NotBelowZero (milli_float.mul x x)
unfolding ◌*ℤ◌ quot
square_sign_milli none = refl
square_sign_milli (some (pos n)) = ground arith
square_sign_milli (some (negsuc n)) = ground arith

div_sign_milli :
    (x y : Milli) → NotBelowZero x → milli_float.lt nought y ≡ true → NotBelowZero (div_milli x y)
unfolding ◌*ℤ◌ quot
div_sign_milli none y p q = refl
div_sign_milli (some a) none p q = refl
div_sign_milli (some (pos n)) (some (pos zero)) p q = refl
div_sign_milli (some (pos n)) (some (pos (suc k))) p q = ground arith
div_sign_milli (some (negsuc n)) (some (pos k)) p q = ground arith
div_sign_milli (some a) (some (negsuc k)) p q = ground arith

sub_le_milli : (x y : Milli) → NotBelowZero y → milli_float.lt x (lift ◌-ℤ◌ x y) ≡ false
unfolding ◌-ℤ◌ ◌*ℤ◌
sub_le_milli x y p = ground arith

not_below_milli : (x : Milli) → milli_float.le x nought ≡ false → NotBelowZero x
unfolding ◌*ℤ◌
not_below_milli x p = ground arith

pub Milli-HasSigns : HasSigns Milli
unfolding ◌*ℤ◌
Milli-HasSigns = record {
  add_sign = add_sign_milli;
  square_sign = square_sign_milli;
  div_sign = div_sign_milli;
  sub_le = sub_le_milli;
  zero_sign = refl;
  not_below = not_below_milli;
}
