-- ===== src/Paging/Reads.antt =====
-- What holds of the rows of a query holds of the items of a page of them.
use gov_flow.Prelude.{
  ℕ, zero, suc, Bool, true, ◌≡◌, List, [], ◌∷◌, map, Option, none, some, All, select, inl, inr,
  Bool-cases,
}
use gov_flow.Database.{Db}
use gov_flow.Executions.Repository.{insert_by, sort_by, limit_to}
use gov_flow.Runtime.{Env, World, ok, pure, query, ◌>>=◌}
use gov_flow.Runtime.Ends.{Ends, Ends-bind, Ends-query, ok-value}
use gov_flow.Runtime.Insert.{bigint, skip}
use gov_flow.Paging.{Paging, slice, sliced, find_all, count_all, list_page}

module _ {ℓ κ} {A : Type ℓ} (P : A → Type κ) where
  pub All-select : (p : A → Bool) (xs : List A) → ((a : A) → p a ≡ true → P a) → All P (select p xs)
  All-select p [] h = tt
  All-select p (x ∷ xs) h = elim (Bool-cases (p x)) [
    | inl e ↦ rw e (h x e, All-select p xs h)
    | inr e ↦ rw e (All-select p xs h)
  ]

  All-insert_by :
      (le : A → A → Bool) (x : A) (ys : List A) → P x → All P ys → All P (insert_by le x ys)
  All-insert_by le x [] h k = (h, tt)
  All-insert_by le x (y ∷ ys) h (k, l) = elim (Bool-cases (le x y)) [
    | inl e ↦ rw e (h, (k, l))
    | inr e ↦ rw e (k, All-insert_by le x ys h l)
  ]

  pub All-sort_by : (le : A → A → Bool) (xs : List A) → All P xs → All P (sort_by le xs)
  unfolding sort_by
  All-sort_by le [] h = tt
  All-sort_by le (x ∷ xs) (h, k) = All-insert_by le x (sort_by le xs) h (All-sort_by le xs k)

  All-limit_to : (n : ℕ) (xs : List A) → All P xs → All P (limit_to n xs)
  unfolding limit_to
  All-limit_to zero xs h = tt
  All-limit_to (suc n) [] h = tt
  All-limit_to (suc n) (x ∷ xs) (h, k) = (h, All-limit_to n xs k)

  All-skip : (n : ℕ) (xs : List A) → All P xs → All P (skip n xs)
  unfolding skip
  All-skip zero xs h = h
  All-skip (suc n) [] h = tt
  All-skip (suc n) (x ∷ xs) (h, k) = All-skip n xs k

  pub All-slice : (l o : ℕ) (xs : List A) → All P xs → All P (slice l o xs)
  unfolding slice
  All-slice l o xs h = All-limit_to l (skip o xs) (All-skip o xs h)

module _ {ℓ κ ι} {A : Type ℓ} {B : Type κ} (P : B → Type ι) where
  pub All-map : (f : A → B) (xs : List A) → All (λ a. P (f a)) xs → All P (map f xs)
  All-map f [] h = tt
  All-map f (x ∷ xs) (h, k) = (h, All-map f xs k)

module _ {A : Type 0} (P : A → Type 0) where
  All-sliced :
      (l o : Option ℕ) (rows : List A) (d d' : Db) (xs : List A)
      → All P rows
      → sliced l o rows d ≡ ok (xs, d')
      → All P xs
  All-sliced (some l) (some o) rows d d' xs h e =
      rw (← ok-value (slice l o rows) xs d d' e) (All-slice P l o rows h)
  All-sliced (some l) none rows d d' xs h e = cc
  All-sliced none o rows d d' xs h e = cc

  pub Ends-list_page :
      (env : Env) (rows : Db → List A) (p : Paging) (w : World)
      → ((d : Db) → All P (rows d))
      → Ends (λ page v. All P page.items) (list_page env rows p w)
  unfolding list_page find_all pure ◌>>=◌
  Ends-list_page env rows p w h =
      Ends-bind (λ xs v. All P xs) (λ page v. All P page.items)
        (query env (find_all (λ d. rows (env.scan w.ticks d)) p)) _ w
        (Ends-query env (λ xs v. All P xs) (find_all (λ d. rows (env.scan w.ticks d)) p) w
          (λ n xs v e. All-sliced (bigint p.limit) (bigint p.offset) _ _ _ xs (h _) e))
        (λ xs v hx.
          Ends-bind (λ n u. All P xs) (λ page u. All P page.items) (query env (count_all rows)) _ v
            (Ends-query env (λ n u. All P xs) (count_all rows) v (λ n a u e. hx)) (λ n u hu. hu))
