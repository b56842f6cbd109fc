-- ===== src/Prelude/Canonical.antt =====
-- Sorting forgets the order of its input: where any two elements are in a strict order one way or the
-- other, all rearrangements of a slice are sorted into the same slice.
use mathlib.Core.List.{Perm, Permᴰ}
use mathlib.Core.Logic.{∥∥₁_elim}
use capacity_planning_operat.Prelude.{
  ◌≡◌, refl, ap, ◌∙◌, Bool, true, List, [], ◌∷◌, ◌⊎◌, inl, inr, arith, All,
}
use capacity_planning_operat.Prelude.Sort.{insert_sorted, sort_slice, IsOrder}
use mathlib.Core.Path.{subst}

-- Any two elements, in the order of the list, are related.
module _ {ℓ} {A : Type ℓ} (R : A → A → Type 0) where
  abbrev pub AllPairs : List A → Type 0
  AllPairs [] = Unit
  AllPairs (x ∷ xs) = All (R x) xs × AllPairs xs

module _ {ℓ} {A : Type ℓ} where
  All-imp : (P Q : A → Type 0) (f : (a : A) → P a → Q a) (xs : List A) → All P xs → All Q xs
  All-imp P Q f [] h = tt
  All-imp P Q f (x ∷ xs) (p, h) = (f x p, All-imp P Q f xs h)

  pub AllPairs-imp :
      (R S : A → A → Type 0) (f : (a b : A) → R a b → S a b) (xs : List A)
      → AllPairs R xs
      → AllPairs S xs
  AllPairs-imp R S f [] h = tt
  AllPairs-imp R S f (x ∷ xs) (p, h) = (All-imp (R x) (S x) (f x) xs p, AllPairs-imp R S f xs h)

  All-permᴰ : (P : A → Type 0) {xs ys : List A} → Permᴰ xs ys → All P xs → All P ys
  All-permᴰ P Permᴰ.nil h = h
  All-permᴰ P (Permᴰ.cons e d) (p, h) = (subst P e p, All-permᴰ P d h)
  All-permᴰ P (Permᴰ.swap e f) (p, (q, h)) = (subst P f q, (subst P e p, h))
  All-permᴰ P (Permᴰ.trans c d) h = All-permᴰ P d (All-permᴰ P c h)

  AllPairs-permᴰ :
      (R : A → A → Type 0) (flip : (a b : A) → R a b → R b a) {xs ys : List A}
      → Permᴰ xs ys
      → AllPairs R xs
      → AllPairs R ys
  AllPairs-permᴰ R flip Permᴰ.nil h = h
  AllPairs-permᴰ R flip (Permᴰ.cons {a = a} {l₂ = ys} e d) (p, h) =
      (subst (λ c. All (R c) ys) e (All-permᴰ (R a) d p), AllPairs-permᴰ R flip d h)
  AllPairs-permᴰ R flip (Permᴰ.swap {a = a} {b = b} {b' = b'} {l = l} e f) ((r, p), (q, h)) =
      subst (λ c. AllPairs R (c ∷ b' ∷ l)) f
        (subst (λ c. AllPairs R (b ∷ c ∷ l)) e ((flip a b r, q), (p, h)))
  AllPairs-permᴰ R flip (Permᴰ.trans c d) h = AllPairs-permᴰ R flip d (AllPairs-permᴰ R flip c h)

module _ {ℓ} {A : Type ℓ} (less : A → A → Bool) where
  abbrev pub IsComparable : A → A → Type 0
  IsComparable a b = (less a b ≡ true) ⊎ (less b a ≡ true)

  module _ (order : IsOrder less (λ a. Unit)) where
    insert_sorted_comm :
        (x y : A) (zs : List A)
        → IsComparable x y
        → insert_sorted less x (insert_sorted less y zs)
          ≡ insert_sorted less y (insert_sorted less x zs)
    unfolding insert_sorted
    insert_sorted_comm x y [] c = ground (arith, c, order.irrefl x tt, order.trans x y x tt tt tt)
    insert_sorted_comm x y (z ∷ zs) c = ground (
      arith,
      c,
      order.irrefl x tt,
      order.trans x y x tt tt tt,
      order.trans x y z tt tt tt,
      order.trans y x z tt tt tt,
      insert_sorted_comm x y zs c,
    )

    flip-IsComparable : (a b : A) → IsComparable a b → IsComparable b a
    flip-IsComparable a b (inl p) = inr p
    flip-IsComparable a b (inr p) = inl p

    sort_slice-permᴰ :
        {xs ys : List A}
        → Permᴰ xs ys
        → AllPairs IsComparable xs
        → sort_slice less xs ≡ sort_slice less ys
    unfolding sort_slice
    sort_slice-permᴰ Permᴰ.nil h = refl
    sort_slice-permᴰ (Permᴰ.cons {a = a} {l₂ = ys} e d) (p, h) =
        ap (insert_sorted less a) (sort_slice-permᴰ d h)
        ∙ ap (λ c. insert_sorted less c (sort_slice less ys)) e
    sort_slice-permᴰ (Permᴰ.swap {a = a} {b = b} {a' = a'} {l = l} e f) ((r, p), (q, h)) =
        insert_sorted_comm a b (sort_slice less l) r
        ∙ ap (λ c. insert_sorted less c (insert_sorted less a (sort_slice less l))) f
        ∙ ap (λ c. insert_sorted less a' (insert_sorted less c (sort_slice less l))) e
    sort_slice-permᴰ (Permᴰ.trans c d) h =
        sort_slice-permᴰ c h
        ∙ sort_slice-permᴰ d (AllPairs-permᴰ IsComparable flip-IsComparable c h)

    -- In a set, what is computed from the sorted slice depends on the elements only.
    pub sort_slice_canonical :
        {B : Type 0}
        → IsSet B
        → (f : List A → B) {xs ys : List A} → Perm xs ys
        → AllPairs IsComparable xs
        → f (sort_slice less xs) ≡ f (sort_slice less ys)
    sort_slice_canonical set f p h = ∥∥₁_elim p (set _ _) (λ d. ap f (sort_slice-permᴰ d h))
