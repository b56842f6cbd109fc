-- ===== src/Prelude/Fallible.antt =====
-- Go's pair of a value and an error, of which the caller looks at one: the value, or the text of the
-- error. In a `do` block the first error is the result, as in a function that returns it.
use capacity_planning_operat.Prelude.{Bool, true, false}
use capacity_planning_operat.Prelude.Text.{Str}

pub data Fallible {ℓ} (A : Type ℓ) : Type ℓ where
  ok : A → Fallible A
  err : Str → Fallible A

infixl 5 ◌>>=◌ ◌>>◌
abbrev pub ◌>>=◌ {ℓ κ} : {A : Type ℓ} {B : Type κ} → Fallible A → (A → Fallible B) → Fallible B
ok a >>= f = f a
err e >>= f = err e

abbrev pub ◌>>◌ {ℓ} : {B : Type ℓ} → Fallible (Unit {0}) → Fallible B → Fallible B
m >> k = m >>= λ _. k

-- `if bad { return fmt.Errorf(…) }`.
abbrev pub refuse : Bool → Str → Fallible (Unit {0})
refuse true e = err e
refuse false e = ok tt
