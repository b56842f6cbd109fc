-- ===== src/Prelude/Sort.antt =====
-- `sort.Slice`. Go promises a rearrangement in which no element is less than an earlier one, and
-- leaves the order of ties open; the model inserts one element after another, as Go does itself for
-- short slices. What a client may use is the laws below, which any such sort meets.
use mathlib.Core.List.{Perm}
use mathlib.Core.List.Perm
use capacity_planning_operat.Prelude.{
  ℕ, zero, suc, ◌≡◌, sym, ◌∙◌, Bool, true, false, List, [], ◌∷◌, arith, if◌then◌else◌, Bool-cases,
  inl, inr, All, take, drop, ◌++◌, ◌≤◌, ◌<◌, length, length-take, take-append-drop, drop_all,
  select,
}

module _ {ℓ} {A : Type ℓ} (less : A → A → Bool) where
  unfoldable pub insert_sorted : A → List A → List A
  insert_sorted x [] = x ∷ []
  insert_sorted x (y ∷ ys) = if less x y then x ∷ (y ∷ ys) else y ∷ insert_sorted x ys

  unfoldable pub sort_slice : List A → List A
  unfolding insert_sorted
  sort_slice [] = []
  sort_slice (x ∷ xs) = insert_sorted x (sort_slice xs)

  -- No element is less than an earlier one.
  abbrev pub IsSorted : List A → Type 0
  IsSorted [] = Unit
  IsSorted (x ∷ xs) = All (λ y. less y x ≡ false) xs × IsSorted xs

  -- A strict order on the elements that satisfy `P`.
  pub record IsOrder (P : A → Type 0) : Type ℓ where
    pub irrefl : (x : A) → P x → less x x ≡ false
    pub trans : (x y z : A) → P x → P y → P z → less x y ≡ true → less y z ≡ true → less x z ≡ true

module _ {ℓ} {A : Type ℓ} (less : A → A → Bool) where
  insert_sorted-perm : (x : A) (ys : List A) → Perm (insert_sorted less x ys) (x ∷ ys)
  unfolding insert_sorted
  insert_sorted-perm x [] = Perm.rfl
  insert_sorted-perm x (y ∷ ys) = elim (Bool-cases (less x y)) [
    | inl e ↦ rw e Perm.rfl
    | inr e ↦ rw e (Perm.trans (Perm.cons y (insert_sorted-perm x ys)) (Perm.swap x y ys))
  ]

  pub sort_slice-perm : (xs : List A) → Perm (sort_slice less xs) xs
  unfolding sort_slice
  sort_slice-perm [] = Perm.rfl
  sort_slice-perm (x ∷ xs) =
      Perm.trans (insert_sorted-perm x (sort_slice less xs)) (Perm.cons x (sort_slice-perm xs))

  module _ {κ} (P : A → Type κ) where
    insert_sorted-All : (x : A) (ys : List A) → P x → All P ys → All P (insert_sorted less x ys)
    unfolding insert_sorted
    insert_sorted-All x [] px h = (px, tt)
    insert_sorted-All x (y ∷ ys) px (py, h) = elim (Bool-cases (less x y)) [
      | inl e ↦ rw e (px, (py, h))
      | inr e ↦ rw e (py, insert_sorted-All x ys px h)
    ]

    -- What holds of every element holds of every sorted element.
    pub sort_slice-All : (xs : List A) → All P xs → All P (sort_slice less xs)
    unfolding sort_slice
    sort_slice-All [] h = h
    sort_slice-All (x ∷ xs) (px, h) =
        insert_sorted-All x (sort_slice less xs) px (sort_slice-All xs h)

  module _ (P : A → Type 0) (order : IsOrder less P) where
    open order use {irrefl, trans}

    not_less : (x y : A) → P x → P y → less x y ≡ true → less y x ≡ false
    not_less x y px py e = ground (arith, trans x y x px py px e, irrefl x px)

    below-All :
        (x y : A) (ys : List A)
        → P x
        → P y
        → All P ys
        → less x y ≡ true
        → All (λ z. less z y ≡ false) ys
        → All (λ z. less z x ≡ false) ys
    below-All x y [] px py ps e h = tt
    below-All x y (z ∷ zs) px py (pz, ps) e (hz, h) =
        (ground (arith, trans z x y pz px py), below-All x y zs px py ps e h)

    insert_sorted-IsSorted :
        (x : A) (ys : List A)
        → P x
        → All P ys
        → IsSorted less ys
        → IsSorted less (insert_sorted less x ys)
    unfolding insert_sorted
    insert_sorted-IsSorted x [] px h s = (tt, tt)
    insert_sorted-IsSorted x (y ∷ ys) px (py, h) (low, s) = elim (Bool-cases (less x y)) [
      | inl e ↦ rw e ((not_less x y px py e, below-All x y ys px py h e low), (low, s))
      | inr e ↦
          rw e (
            insert_sorted-All (λ z. less z y ≡ false) x ys e low,
            insert_sorted-IsSorted x ys px h s,
          )
    ]

    pub sort_slice-IsSorted : (xs : List A) → All P xs → IsSorted less (sort_slice less xs)
    unfolding sort_slice
    sort_slice-IsSorted [] h = tt
    sort_slice-IsSorted (x ∷ xs) (px, h) =
        insert_sorted-IsSorted x (sort_slice less xs) px (sort_slice-All P xs h)
          (sort_slice-IsSorted xs h)

  -- No element behind the first `n` of a sorted list is less than one of those.
  pub IsSorted-take-drop :
      (n : ℕ) (xs : List A)
      → IsSorted less xs
      → All (λ x. All (λ y. less y x ≡ false) (drop n xs)) (take n xs)
  IsSorted-take-drop zero xs s = tt
  IsSorted-take-drop (suc n) [] s = tt
  IsSorted-take-drop (suc n) (x ∷ xs) (low, s) = (All-drop n xs low, IsSorted-take-drop n xs s)
    where
      All-drop :
          (k : ℕ) (ys : List A)
          → All (λ y. less y x ≡ false) ys
          → All (λ y. less y x ≡ false) (drop k ys)
      All-drop zero ys h = h
      All-drop (suc k) [] h = tt
      All-drop (suc k) (y ∷ ys) (hy, h) = All-drop k ys h

module _ {ℓ} {A : Type ℓ} (less : A → A → Bool) where
  -- A ranking of `xs` cut behind the first `n`: nothing is lost or invented, what is kept is in order,
  -- and nothing that was cut off belongs before anything kept.
  pub record IsTop (n : ℕ) (xs top rest : List A) : Type ℓ where
    pub same_items : Perm (top ++ rest) xs
    pub at_most : length top ≤ n
    pub full : length top < n → rest ≡ []
    pub ordered : IsSorted less top
    pub best : All (λ x. All (λ y. less y x ≡ false) rest) top

module _ {ℓ} {A : Type ℓ} (less : A → A → Bool) where
  IsSorted-take : (n : ℕ) (xs : List A) → IsSorted less xs → IsSorted less (take n xs)
  IsSorted-take zero xs s = tt
  IsSorted-take (suc n) [] s = tt
  IsSorted-take (suc n) (x ∷ xs) (low, s) = (All-take n xs low, IsSorted-take n xs s)
    where
      All-take :
          (k : ℕ) (ys : List A)
          → All (λ y. less y x ≡ false) ys
          → All (λ y. less y x ≡ false) (take k ys)
      All-take zero ys h = tt
      All-take (suc k) [] h = tt
      All-take (suc k) (y ∷ ys) (hy, h) = (hy, All-take k ys h)

  -- The first `n` after sorting are the top `n`.
  pub take-IsTop :
      (P : A → Type 0) (n : ℕ) (xs : List A)
      → IsOrder less P
      → All P xs
      → IsTop less n xs (take n (sort_slice less xs)) (drop n (sort_slice less xs))
  take-IsTop P n xs order h =
      let ranked = sort_slice less xs in
      let sorted = sort_slice-IsSorted less P order xs h in
      record {
        same_items = rw (take-append-drop n ranked) (sort_slice-perm less xs);
        at_most = omega (arith, length-take n ranked);
        full = λ short. drop_all n ranked (omega (arith, short, length-take n ranked));
        ordered = IsSorted-take n ranked sorted;
        best = IsSorted-take-drop less n ranked sorted;
      }

-- A loop that skips elements keeps what holds of every element.
pub select-All {ℓ} :
    {A : Type ℓ} (P : A → Type 0) (p : A → Bool) (xs : List A) → All P xs → All P (select p xs)
select-All P p [] h = tt
select-All P p (x ∷ xs) (hx, h) = elim (Bool-cases (p x)) [
  | inl e ↦ rw e (hx, select-All P p xs h)
  | inr e ↦ rw e (select-All P p xs h)
]

-- Tests that agree rank alike.
module _ {ℓ} {A : Type ℓ} (f g : A → A → Bool) (same : (a b : A) → f a b ≡ g a b) where
  All-same : (x : A) (ys : List A) → All (λ y. f y x ≡ false) ys → All (λ y. g y x ≡ false) ys
  All-same x [] h = tt
  All-same x (y ∷ ys) (p, h) = (sym (same y x) ∙ p, All-same x ys h)

  All-All-same :
      (xs ys : List A)
      → All (λ x. All (λ y. f y x ≡ false) ys) xs
      → All (λ x. All (λ y. g y x ≡ false) ys) xs
  All-All-same [] ys h = tt
  All-All-same (x ∷ xs) ys (p, h) = (All-same x ys p, All-All-same xs ys h)

  pub IsSorted-same : (xs : List A) → IsSorted f xs → IsSorted g xs
  IsSorted-same [] h = tt
  IsSorted-same (x ∷ xs) (p, h) = (All-same x xs p, IsSorted-same xs h)

  pub IsTop-same : {n : ℕ} {xs top rest : List A} → IsTop f n xs top rest → IsTop g n xs top rest
  IsTop-same {n} {xs} {top} {rest} t = record {
    same_items = t.same_items;
    at_most = t.at_most;
    full = t.full;
    ordered = IsSorted-same top t.ordered;
    best = All-All-same top rest t.best;
  }
