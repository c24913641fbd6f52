-- ===== src/Database/Sorting.antt =====
-- `ORDER BY` on a column of numbers: the rows come sorted, and sorted rows stay as they are.
use gov_flow.Prelude.{
  ℕ, ◌≡◌, refl, ◌∙◌, ap, Bool, true, false, List, [], ◌∷◌, inl, inr, Bool-cases, leb, arith,
}
use gov_flow.Executions.Repository.{insert_by, sort_by}

module _ {A : Type 0} (rank : A → ℕ) where
  abbrev pub by_rank : A → A → Bool
  by_rank a b = leb (rank a) (rank b)

  abbrev pub IsSorted : List A → Type 0
  IsSorted [] = Unit {0}
  IsSorted (x ∷ []) = Unit {0}
  IsSorted (x ∷ y ∷ rest) = (by_rank x y ≡ true) × IsSorted (y ∷ rest)

  other_way : (x y : A) → by_rank x y ≡ false → by_rank y x ≡ true
  other_way x y h = ground arith

  -- The head of the result is the new element or the old head.
  insert_by-IsSorted :
      (x y : A) (ys : List A)
      → by_rank y x ≡ true
      → IsSorted (y ∷ ys)
      → IsSorted (y ∷ insert_by by_rank x ys)
  insert_by-IsSorted x y [] h k = (h, tt)
  insert_by-IsSorted x y (z ∷ zs) h (p, k) = elim (Bool-cases (by_rank x z)) [
    | inl e ↦ rw e (h, (e, k))
    | inr e ↦ rw e (p, insert_by-IsSorted x z zs (other_way x z e) k)
  ]

  insert_any-IsSorted : (x : A) (ys : List A) → IsSorted ys → IsSorted (insert_by by_rank x ys)
  insert_any-IsSorted x [] h = tt
  insert_any-IsSorted x (y ∷ ys) h = elim (Bool-cases (by_rank x y)) [
    | inl e ↦ rw e (e, h)
    | inr e ↦ rw e (insert_by-IsSorted x y ys (other_way x y e) h)
  ]

  pub sort_by-IsSorted : (xs : List A) → IsSorted (sort_by by_rank xs)
  unfolding sort_by
  sort_by-IsSorted [] = tt
  sort_by-IsSorted (x ∷ xs) = insert_any-IsSorted x (sort_by by_rank xs) (sort_by-IsSorted xs)

  pub sort_by_sorted : (xs : List A) → IsSorted xs → sort_by by_rank xs ≡ xs
  unfolding sort_by
  sort_by_sorted [] h = refl
  sort_by_sorted (x ∷ []) h = refl
  sort_by_sorted (x ∷ y ∷ rest) (p, h) =
      ap (insert_by by_rank x) (sort_by_sorted (y ∷ rest) h) ∙ rw p refl
