-- ===== src/Prelude/Lex.antt =====
-- Comparators that look at one key and go on to the next where the keys are equal, as those that the
-- code hands to `sort.Slice` do.
use capacity_planning_operat.Prelude.{
  ℕ, ◌≡◌, Bool, true, false, List, [], ◌∷◌, arith, if◌then◌else◌, ltb, ◌==◌,
}
use capacity_planning_operat.Prelude.Int.{ℤ, ltb_ℤ, eqb_ℤ}
use capacity_planning_operat.Prelude.Text.{
  Str, str_eq, str_lt, str_eq_iff, str_eq_refl, str_lt_irrefl, str_lt_trans,
}
use capacity_planning_operat.Prelude.Sort.{IsOrder}
use capacity_planning_operat.Prelude.Float.{Float64, IsNumber, IsOrdered}
use mathlib.Core.Path.{subst}

abbrev pub lex {ℓ κ} :
    {A : Type ℓ} {K : Type κ} (same less : K → K → Bool) (key : A → K) (next : A → A → Bool)
    → A
    → A
    → Bool
lex same less key next a b = if same (key a) (key b) then next a b else less (key a) (key b)

abbrev pub flip {ℓ} : {K : Type ℓ} → (K → K → Bool) → K → K → Bool
flip less x y = less y x

-- A strict order whose ties are an equivalence, on the keys that satisfy `P`.
pub record IsWeakOrder {κ} (K : Type κ) (P : K → Type 0) (same less : K → K → Bool) : Type κ where
  pub same_refl : (x : K) → P x → same x x ≡ true
  pub same_sym : (x y : K) → same x y ≡ true → same y x ≡ true
  pub same_trans : (x y z : K) → same x y ≡ true → same y z ≡ true → same x z ≡ true
  pub less_irrefl : (x : K) → less x x ≡ false
  pub less_trans : (x y z : K) → less x y ≡ true → less y z ≡ true → less x z ≡ true
  pub less_same : (x y z : K) → less x y ≡ true → same y z ≡ true → less x z ≡ true
  pub same_less : (x y z : K) → same x y ≡ true → less y z ≡ true → less x z ≡ true

module _ {ℓ κ} {A : Type ℓ} {K : Type κ} {same less : K → K → Bool} (P : A → Type 0)
    {Q : K → Type 0} (key : A → K) {next : A → A → Bool} (fits : (a : A) → P a → Q (key a))
    (w : IsWeakOrder K Q same less) (o : IsOrder next P) where
  open w use {same_refl, same_sym, same_trans, less_irrefl, less_trans, less_same, same_less}

  lex_irrefl : (a : A) → P a → lex same less key next a a ≡ false
  lex_irrefl a p = ground (arith, same_refl (key a) (fits a p), o.irrefl a p)

  lex_trans :
      (a b c : A)
      → P a
      → P b
      → P c
      → lex same less key next a b ≡ true
      → lex same less key next b c ≡ true
      → lex same less key next a c ≡ true
  lex_trans a b c pa pb pc p q =
      let x = key a in
      let y = key b in
      let z = key c in
      ground (
        arith,
        o.trans a b c pa pb pc,
        same_trans x y z,
        same_sym x y,
        same_trans y x z,
        same_sym y z,
        same_trans x z y,
        less_trans x y z,
        less_same x y z,
        same_less x y z,
        same_sym x z,
        less_same y z x,
        less_trans x y x,
        less_irrefl x,
      )

  -- A comparator that looks at a weakly ordered key first is a strict order if the rest is one.
  pub lex-IsOrder : IsOrder (lex same less key next) P
  lex-IsOrder = record { irrefl = lex_irrefl; trans = lex_trans }

pub flip-IsWeakOrder {κ} :
    {K : Type κ} {P : K → Type 0} {same less : K → K → Bool}
    → IsWeakOrder K P same less
    → IsWeakOrder K P same (flip less)
flip-IsWeakOrder w = record {
  same_refl = w.same_refl;
  same_sym = w.same_sym;
  same_trans = w.same_trans;
  less_irrefl = w.less_irrefl;
  less_trans = λ x y z p q. w.less_trans z y x q p;
  less_same = λ x y z p q. w.same_less z y x (w.same_sym y z q) p;
  same_less = λ x y z p q. w.less_same z y x q (w.same_sym x y p);
}

abbrev pub Anything {ℓ} : {A : Type ℓ} → A → Type 0
Anything x = Unit

pub str-IsWeakOrder : IsWeakOrder Str Anything str_eq str_lt
str-IsWeakOrder = record {
  same_refl = λ x p. str_eq_refl x;
  same_sym = λ x y p. ground (arith, str_eq_iff x y, str_eq_iff y x);
  same_trans = λ x y z p q. ground (arith, str_eq_iff x y, str_eq_iff y z, str_eq_iff x z);
  less_irrefl = str_lt_irrefl;
  less_trans = str_lt_trans;
  less_same = λ x y z p q. subst (λ u. str_lt x u ≡ true) ((str_eq_iff y z).0 q) p;
  same_less = λ x y z p q.
      subst (λ u. str_lt u z ≡ true)
        ((str_eq_iff y x).0 (ground (arith, str_eq_iff x y, str_eq_iff y x))) q;
}

pub float-IsWeakOrder :
    {F : Type 0} ⦃float : Float64 F⦄ → IsOrdered F → IsWeakOrder F IsNumber float.eq float.lt
float-IsWeakOrder laws = record {
  same_refl = λ x p. p;
  same_sym = laws.eq_sym;
  same_trans = laws.eq_trans;
  less_irrefl = laws.lt_irrefl;
  less_trans = laws.lt_trans;
  less_same = laws.lt_eq;
  same_less = laws.eq_lt;
}

-- The last comparison of a chain, by a name.
pub by_name-IsOrder {ℓ} :
    {A : Type ℓ} (P : A → Type 0) (key : A → Str) → IsOrder (λ a b. str_lt (key a) (key b)) P
by_name-IsOrder P key = record {
  irrefl = λ a p. str_lt_irrefl (key a);
  trans = λ a b c pa pb pc. str_lt_trans (key a) (key b) (key c);
}

-- By namespace, then by name: how every comparator of the planner breaks its ties.
pub by_key-IsOrder {ℓ} :
    {A : Type ℓ} (P : A → Type 0) (namespace name : A → Str)
    → IsOrder (lex str_eq str_lt namespace (λ a b. str_lt (name a) (name b))) P
by_key-IsOrder P namespace name =
    lex-IsOrder P {Q = Anything} namespace (λ a p. tt) str-IsWeakOrder (by_name-IsOrder P name)

-- Integers, and the timestamps they stand for, are weakly ordered.
pub int-IsWeakOrder : IsWeakOrder ℤ Anything eqb_ℤ ltb_ℤ
int-IsWeakOrder = record {
  same_refl = λ x p. ground arith;
  same_sym = λ x y p. ground arith;
  same_trans = λ x y z p q. ground arith;
  less_irrefl = λ x. ground arith;
  less_trans = λ x y z p q. ground arith;
  less_same = λ x y z p q. ground arith;
  same_less = λ x y z p q. ground arith;
}

pub nat-IsWeakOrder : IsWeakOrder ℕ Anything ◌==◌ ltb
nat-IsWeakOrder = record {
  same_refl = λ x p. ground arith;
  same_sym = λ x y p. ground arith;
  same_trans = λ x y z p q. ground arith;
  less_irrefl = λ x. ground arith;
  less_trans = λ x y z p q. ground arith;
  less_same = λ x y z p q. ground arith;
  same_less = λ x y z p q. ground arith;
}

-- An order by several keys, each given by whether two items agree in it and by whether the first comes
-- before the second: the first key in which they differ decides, and else the last test.
abbrev pub by_first_difference : List (Bool × Bool) → Bool → Bool
by_first_difference [] last = last
by_first_difference ((same, before) ∷ keys) last =
    if same then by_first_difference keys last else before
