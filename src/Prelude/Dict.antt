-- ===== src/Prelude/Dict.antt =====
-- `map[string]V` as an association list. Go ranges over a map in no particular order; the model's
-- order is that of insertion.
use capacity_planning_operat.Prelude.{
  ◌≡◌, refl, true, false, List, [], ◌∷◌, Option, none, some, arith, if◌then◌else◌, Bool-cases, inl,
  inr,
}
use mathlib.Core.Path.{subst}
use mathlib.Core.Option.{some-injective}
use capacity_planning_operat.Prelude.Text.{Str, str_eq, str_eq_iff, str_eq_refl}

abbrev pub Dict {ℓ} : Type ℓ → Type ℓ
Dict V = List (Str × V)

module _ {ℓ} {V : Type ℓ} where
  unfoldable pub lookup : Str → Dict V → Option V
  lookup k [] = none
  lookup k ((j, v) ∷ m) = if str_eq j k then some v else lookup k m

  unfoldable pub insert : Str → V → Dict V → Dict V
  insert k v [] = (k, v) ∷ []
  insert k v ((j, w) ∷ m) = if str_eq j k then (j, v) ∷ m else (j, w) ∷ insert k v m

  -- `delete(m, k)`.
  unfoldable pub delete : Str → Dict V → Dict V
  delete k [] = []
  delete k ((j, w) ∷ m) = if str_eq j k then delete k m else (j, w) ∷ delete k m

  pub lookup-insert :
      (k j : Str) (v : V) (m : Dict V)
      → lookup j (insert k v m) ≡ (if str_eq k j then some v else lookup j m)
  unfolding lookup insert
  lookup-insert k j v [] = refl
  lookup-insert k j v ((i, w) ∷ m) =
      ground (arith, str_eq_iff k j, str_eq_iff i k, str_eq_iff i j, lookup-insert k j v m)

  pub lookup-delete :
      (k j : Str) (m : Dict V) → lookup j (delete k m) ≡ (if str_eq k j then none else lookup j m)
  unfolding lookup delete
  lookup-delete k j [] = ground arith
  lookup-delete k j ((i, w) ∷ m) =
      ground (arith, str_eq_iff k j, str_eq_iff i k, str_eq_iff i j, lookup-delete k j m)

module _ {ℓ κ} {V : Type ℓ} {W : Type κ} where
  -- `for k, v := range m { m[k] = f(v) }`.
  unfoldable pub map_values : (V → W) → Dict V → Dict W
  map_values f [] = []
  map_values f ((k, v) ∷ m) = (k, f v) ∷ map_values f m

  abbrev pub map_option : (V → W) → Option V → Option W
  map_option f none = none
  map_option f (some v) = some (f v)

  pub lookup-map_values :
      (f : V → W) (k : Str) (m : Dict V) → lookup k (map_values f m) ≡ map_option f (lookup k m)
  unfolding lookup map_values
  lookup-map_values f k [] = refl
  lookup-map_values f k ((j, v) ∷ m) = ground (arith, lookup-map_values f k m)

-- Every value of a map, as an invariant.
module _ {ℓ} {V : Type ℓ} (P : V → Type 0) where
  abbrev pub AllValues : Dict V → Type 0
  AllValues [] = Unit
  AllValues ((k, v) ∷ m) = P v × AllValues m

  pub insert-AllValues :
      (k : Str) (v : V) (m : Dict V) → P v → AllValues m → AllValues (insert k v m)
  unfolding insert
  insert-AllValues k v [] p h = (p, tt)
  insert-AllValues k v ((j, w) ∷ m) p (q, h) =
      elim (str_eq j k) as (λ b. AllValues (if b then (j, v) ∷ m else (j, w) ∷ insert k v m)) [
        | true ↦ (p, h)
        | false ↦ (q, insert-AllValues k v m p h)
      ]

  pub delete-AllValues : (k : Str) (m : Dict V) → AllValues m → AllValues (delete k m)
  unfolding delete
  delete-AllValues k [] h = h
  delete-AllValues k ((j, w) ∷ m) (q, h) =
      elim (str_eq j k) as (λ b. AllValues (if b then delete k m else (j, w) ∷ delete k m)) [
        | true ↦ delete-AllValues k m h
        | false ↦ (q, delete-AllValues k m h)
      ]

  -- A value that is found satisfies what all values satisfy.
  pub lookup-AllValues : (k : Str) (m : Dict V) {v : V} → AllValues m → lookup k m ≡ some v → P v
  unfolding lookup
  lookup-AllValues k [] h e = absurd (ground arith)
  lookup-AllValues k ((j, w) ∷ m) (q, h) e = elim (Bool-cases (str_eq j k)) [
    | inl b ↦ subst P (some-injective _ _ (rw b at e)) q
    | inr b ↦ lookup-AllValues k m h (rw b at e)
  ]

-- Each key stands in the list once, as in a map.
module _ {ℓ} {V : Type ℓ} where
  abbrev pub IsUnique : Dict V → Type ℓ
  IsUnique [] = Unit
  IsUnique ((k, v) ∷ m) = (lookup k m ≡ none) × IsUnique m

  abbrev pub AllEntries : (Str → V → Type ℓ) → Dict V → Type ℓ
  AllEntries P [] = Unit
  AllEntries P ((k, v) ∷ m) = P k v × AllEntries P m

  pub insert-IsUnique : (k : Str) (v : V) (m : Dict V) → IsUnique m → IsUnique (insert k v m)
  unfolding insert lookup
  insert-IsUnique k v [] u = (refl, tt)
  insert-IsUnique k v ((j, w) ∷ m) (new, u) = elim (Bool-cases (str_eq j k)) [
    | inl e ↦ rw e (new, u)
    | inr e ↦ rw e (
      ground (arith, lookup-insert k j v m, str_eq_iff k j, str_eq_iff j k),
      insert-IsUnique k v m u,
    )
  ]

  AllEntries-tail :
      (P : Str → V → Type ℓ) (j : Str) (w : V) (m n : Dict V)
      → lookup j m ≡ none
      → ((k : Str) (v : V) → lookup k m ≡ some v → P k v)
      → AllEntries (λ k v. lookup k m ≡ some v) n
      → AllEntries P n
  AllEntries-tail P j w m [] new f h = tt
  AllEntries-tail P j w m ((k, v) ∷ n) new f (e, h) = (f k v e, AllEntries-tail P j w m n new f h)

  -- Every entry of a map is what a lookup of its key finds.
  pub IsUnique-lookup : (m : Dict V) → IsUnique m → AllEntries (λ k v. lookup k m ≡ some v) m
  unfolding lookup
  IsUnique-lookup [] u = tt
  IsUnique-lookup ((j, w) ∷ m) (new, u) = (
    rw (str_eq_refl j) refl,
    AllEntries-tail (λ k v. lookup k ((j, w) ∷ m) ≡ some v) j w m m new
        (λ k v e. ground (arith, str_eq_iff j k, e, new)) (IsUnique-lookup m u),
  )
