-- ===== src/Paging/Steady.antt =====
-- `ORDER BY created_at DESC` gives one order, however the query finds the rows, if rows with the
-- same time are the same.
use gov_flow.Prelude.{
  ℕ, ◌≡◌, ◌⊎◌, refl, sym, ◌∙◌, ap, Bool, true, false, List, [], ◌∷◌, inl, inr, Bool-cases, leb,
  select, map, arith, if◌then◌else◌,
}
use gov_flow.Database.{Db, Execution}
use gov_flow.Executions.Repository.{insert_by, sort_by, with_workflow, ExecutionDetails}
use gov_flow.Executions.Rows.{ExecutionFilters, execution_matches, execution_rows}
use gov_flow.Paging.Pages.{IsSteady}
use gov_flow.Runtime.{Env}

-- Rows change places, one pair of neighbours after the other.
pub data IsReordered {A : Type 0} : List A → List A → Type 0 where
  nowhere : IsReordered [] []
  below : {x : A} {xs ys : List A} → IsReordered xs ys → IsReordered (x ∷ xs) (x ∷ ys)
  at_top : {x y : A} {xs : List A} → IsReordered (x ∷ y ∷ xs) (y ∷ x ∷ xs)
  further : {xs ys zs : List A} → IsReordered xs ys → IsReordered ys zs → IsReordered xs zs

-- A row is in the list.
abbrev pub IsIn : {A : Type 0} → A → List A → Type 0
IsIn a [] = ⊥
IsIn a (x ∷ xs) = (a ≡ x) ⊎ IsIn a xs

module _ {A : Type 0} (rank : A → ℕ) where
  abbrev newest : A → A → Bool
  newest a b = leb (rank b) (rank a)

  tied : (x y : A) → newest x y ≡ true → newest y x ≡ true → rank x ≡ rank y
  tied x y h k = ground arith

  untied : (x y : A) → newest x y ≡ false → newest y x ≡ true
  untied x y h = ground arith

  both_before : (x y z : A) → newest x z ≡ true → newest y z ≡ false → newest y x ≡ false
  both_before x y z h k = ground arith

  one_row :
      (x y : A) (zs : List A)
      → x ≡ y
      → insert_by newest x (insert_by newest y zs) ≡ insert_by newest y (insert_by newest x zs)
  one_row x y zs e =
      ap (λ (v : A). insert_by newest v (insert_by newest y zs)) e
      ∙ ap (λ (v : A). insert_by newest y (insert_by newest v zs)) (sym e)

  insert_by-commutes :
      (x y : A) (zs : List A)
      → (rank x ≡ rank y → x ≡ y)
      → insert_by newest x (insert_by newest y zs) ≡ insert_by newest y (insert_by newest x zs)
  insert_by-commutes x y [] h = elim (Bool-cases (newest x y)) [
    | inl a ↦ elim (Bool-cases (newest y x)) [
      | inl b ↦ one_row x y [] (h (tied x y a b))
      | inr b ↦ rw (a, b) refl
    ]
    | inr a ↦ rw (a, untied x y a) refl
  ]
  insert_by-commutes x y (z ∷ zs) h = elim (Bool-cases (newest x z)) [
    | inl a ↦ elim (Bool-cases (newest y z)) [
      | inl b ↦ elim (Bool-cases (newest x y)) [
        | inl c ↦ elim (Bool-cases (newest y x)) [
          | inl d ↦ one_row x y (z ∷ zs) (h (tied x y c d))
          | inr d ↦ rw (a, b, c, d) refl
        ]
        | inr c ↦ rw (a, b, c, untied x y c, a) refl
      ]
      | inr b ↦ rw (a, b, both_before x y z a b, a) refl
    ]
    | inr a ↦ elim (Bool-cases (newest y z)) [
      | inl b ↦ rw (a, b, both_before y x z b a, a) refl
      | inr b ↦ rw (a, b, a) (ap (λ (l : List A). z ∷ l) (insert_by-commutes x y zs h))
    ]
  ]

  module _ {B : Type 0} (p : A → Bool) (view : B → A) where
    -- The filtered and ordered list of some rows
    abbrev pub listed : List B → List A
    listed xs = sort_by newest (select p (map view xs))

    -- Two rows are the same if their times are.
    abbrev pub IsTold : B → B → Type 0
    IsTold a b = rank (view a) ≡ rank (view b) → view a ≡ view b

    abbrev place : B → List A → List A
    place x acc = if p (view x) then insert_by newest (view x) acc else acc

    listed-place : (x : B) (xs : List B) → listed (x ∷ xs) ≡ place x (listed xs)
    unfolding sort_by
    listed-place x xs = elim (Bool-cases (p (view x))) [ inl e ↦ rw e refl | inr e ↦ rw e refl ]

    place-commutes :
        (x y : B) (acc : List A) → IsTold x y → place x (place y acc) ≡ place y (place x acc)
    place-commutes x y acc h = elim (Bool-cases (p (view x))) [
      | inl a ↦ elim (Bool-cases (p (view y))) [
        | inl b ↦ rw (a, b) (insert_by-commutes (view x) (view y) acc h)
        | inr b ↦ rw (a, b) refl
      ]
      | inr a ↦ rw a refl
    ]

    -- Rows of a list with the same time are the same.
    abbrev pub AllTold : List B → Type 0
    AllTold xs = (a b : B) → IsIn a xs → IsIn b xs → IsTold a b

    earlier_place : (a : B) (xs ys : List B) → IsReordered xs ys → IsIn a ys → IsIn a xs
    earlier_place a _ _ nowhere h = h
    earlier_place a _ _ (below r) (inl e) = inl e
    earlier_place a _ _ (below r) (inr h) = inr (earlier_place a _ _ r h)
    earlier_place a _ _ at_top (inl e) = inr (inl e)
    earlier_place a _ _ at_top (inr (inl e)) = inl e
    earlier_place a _ _ at_top (inr (inr h)) = inr (inr h)
    earlier_place a _ _ (further r s) h = earlier_place a _ _ r (earlier_place a _ _ s h)

    same_list : (xs ys : List B) → IsReordered xs ys → AllTold xs → listed xs ≡ listed ys
    same_list _ _ nowhere h = refl
    same_list _ _ (below {x} {xs} {ys} r) h =
        listed-place x xs
        ∙ ap (place x) (same_list xs ys r (λ a b i j. h a b (inr i) (inr j)))
        ∙ sym (listed-place x ys)
    same_list _ _ (at_top {x} {y} {xs}) h =
        listed-place x (y ∷ xs)
        ∙ ap (place x) (listed-place y xs)
        ∙ place-commutes x y (listed xs) (h x y (inl refl) (inr (inl refl)))
        ∙ ap (place y) (sym (listed-place x xs))
        ∙ sym (listed-place y (x ∷ xs))
    same_list _ _ (further {xs} {ys} {zs} r s) h =
        same_list xs ys r h
        ∙ same_list ys zs s
            (λ a b i j. h a b (earlier_place a xs ys r i) (earlier_place b xs ys r j))

-- The queries find the executions in different orders, and the rows of the other tables as they are.
abbrev pub Shuffles : Env → Db → Type 0
Shuffles env d =
    (n : ℕ)
    → (xs : List Execution) × IsReordered d.executions xs
      × (env.scan n d ≡ record d { executions = xs })

-- In whatever order the queries find the executions: if no two of them have the same creation time,
-- the list of executions, as it is filtered, is always in the same order.
pub execution_rows-IsSteady :
    (env : Env) (f : ExecutionFilters) (d : Db)
    → Shuffles env d
    → AllTold
        (λ (x : ExecutionDetails). x.execution.created_at)
        (execution_matches f)
        (with_workflow d)
        d.executions
    → IsSteady env (execution_rows f) d
unfolding execution_rows
execution_rows-IsSteady env f d shuffled distinct n =
    let (xs, moved, same) = shuffled n in
    ap (execution_rows f) same
    ∙ sym (
        same_list (λ (x : ExecutionDetails). x.execution.created_at) (execution_matches f)
          (with_workflow d) d.executions xs moved distinct)
