-- ===== src/Prelude/Members.antt =====
-- Properties of one or of all elements of a list, through appending and sorting.
use capacity_planning_operat.Prelude.{◌⊎◌, inl, inr, Bool, List, [], ◌∷◌, ◌++◌, All, Bool-cases}
use capacity_planning_operat.Prelude.Sort.{insert_sorted, sort_slice}

-- Some element satisfies `P`, with its place.
module _ {ℓ} {A : Type ℓ} (P : A → Type 0) where
  abbrev pub Any : List A → Type 0
  Any [] = ⊥
  Any (x ∷ xs) = P x ⊎ Any xs

  pub Any-append_left : (xs ys : List A) → Any xs → Any (xs ++ ys)
  Any-append_left [] ys h = elim h [ ]
  Any-append_left (x ∷ xs) ys (inl p) = inl p
  Any-append_left (x ∷ xs) ys (inr h) = inr (Any-append_left xs ys h)

  pub Any-append_right : (xs ys : List A) → Any ys → Any (xs ++ ys)
  Any-append_right [] ys h = h
  Any-append_right (x ∷ xs) ys h = inr (Any-append_right xs ys h)

  pub All-append : (xs ys : List A) → All P xs → All P ys → All P (xs ++ ys)
  All-append [] ys h k = k
  All-append (x ∷ xs) ys (p, h) k = (p, All-append xs ys h k)

  module _ (less : A → A → Bool) where
    Any-insert_head : (x : A) (ys : List A) → P x → Any (insert_sorted less x ys)
    unfolding insert_sorted
    Any-insert_head x [] p = inl p
    Any-insert_head x (y ∷ ys) p = elim (Bool-cases (less x y)) [
      | inl e ↦ rw e (inl p)
      | inr e ↦ rw e (inr (Any-insert_head x ys p))
    ]

    Any-insert_tail : (x : A) (ys : List A) → Any ys → Any (insert_sorted less x ys)
    unfolding insert_sorted
    Any-insert_tail x [] h = elim h [ ]
    Any-insert_tail x (y ∷ ys) (inl p) = elim (Bool-cases (less x y)) [
      | inl e ↦ rw e (inr (inl p))
      | inr e ↦ rw e (inl p)
    ]
    Any-insert_tail x (y ∷ ys) (inr h) = elim (Bool-cases (less x y)) [
      | inl e ↦ rw e (inr (inr h))
      | inr e ↦ rw e (inr (Any-insert_tail x ys h))
    ]

    -- Sorting loses no element.
    pub sort_slice-Any : (xs : List A) → Any xs → Any (sort_slice less xs)
    unfolding sort_slice
    sort_slice-Any [] h = h
    sort_slice-Any (x ∷ xs) (inl p) = Any-insert_head x (sort_slice less xs) p
    sort_slice-Any (x ∷ xs) (inr h) = Any-insert_tail x (sort_slice less xs) (sort_slice-Any xs h)
