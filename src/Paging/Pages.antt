-- ===== src/Paging/Pages.antt =====
-- A client that reads the pages of a list one after the other.
use gov_flow.Prelude.{
  ℕ, zero, suc, ◌+◌, ◌*◌, ◌-◌, ◌≤◌, ◌<◌, ◌≡◌, refl, sym, ◌∙◌, ap, subst, List, [], ◌∷◌, ◌++◌,
  length, arith, some, none, ltb, same_number, false, if◌then◌else◌,
}
use Prim.Native.Nat.{◌^◌}
use native.Mathlib.Nat.{max-eq_left, min-eq_left}
use gov_flow.Js.Value.{nat, whole, pos}
use gov_flow.Js.Number.{ceil_div, or_number, at_least_one, at_most}
use gov_flow.Database.{Db}
use gov_flow.Executions.Repository.{limit_to}
use gov_flow.Runtime.{Env, World, M, ok, pure, ◌>>=◌}
use gov_flow.Runtime.Quiet.{IsQuiet, bind-ok, query_quiet}
use gov_flow.Runtime.Insert.{skip, bigint}
use gov_flow.Paging.{Paging, pagination_of, paging, list_page, slice, scan_order}

zero_plus : (b : ℕ) → 0 + b ≡ b
zero_plus b = omega arith

suc_plus : (a b : ℕ) → suc a + b ≡ suc (a + b)
suc_plus a b = omega arith

positive : (n : ℕ) → 1 ≤ n → same_number n 0 ≡ false
positive n h = ground arith

zero_times : (n : ℕ) → 0 * n ≡ 0
zero_times n = omega arith

suc_times : (n m : ℕ) → n * m + m ≡ suc n * m
suc_times n m = grind arith

limit_kept :
    (n : ℕ)
    → 1 ≤ n
    → n ≤ 100
    → at_most 100 (at_least_one (or_number (whole (pos n)) 20)) ≡ whole (pos n)
limit_kept n h u = rw (positive n h, max-eq_left h, min-eq_left u) refl

one_le : (n : ℕ) → 1 ≤ suc n
one_le n = omega arith

less_pages : (n limit : ℕ) → n * limit ≤ suc n * limit
less_pages n limit = grind arith

pred_page : (n : ℕ) → suc n - 1 ≡ n
pred_page n = omega arith

page_kept : (n : ℕ) → at_least_one (or_number (whole (pos (suc n))) 1) ≡ whole (pos (suc n))
page_kept n = rw (positive (suc n) (one_le n), max-eq_left (one_le n)) refl

module _ {A : Type 0} where
  limit_to_nil : (n : ℕ) → limit_to {A = A} n [] ≡ []
  unfolding limit_to
  limit_to_nil zero = refl
  limit_to_nil (suc n) = refl

  limit_to-add :
      (a b : ℕ) (xs : List A) → limit_to (a + b) xs ≡ limit_to a xs ++ limit_to b (skip a xs)
  unfolding limit_to skip
  limit_to-add zero b xs = ap (λ n. limit_to n xs) (zero_plus b)
  limit_to-add (suc a) b [] = limit_to_nil (suc a + b) ∙ sym (limit_to_nil b)
  limit_to-add (suc a) b (x ∷ xs) =
      ap (λ n. limit_to n (x ∷ xs)) (suc_plus a b) ∙ ap (λ l. x ∷ l) (limit_to-add a b xs)

  limit_to_all : (n : ℕ) (xs : List A) → length xs ≤ n → limit_to n xs ≡ xs
  unfolding limit_to
  limit_to_all zero [] h = refl
  limit_to_all zero (x ∷ xs) h = absurd (omega arith)
  limit_to_all (suc n) [] h = refl
  limit_to_all (suc n) (x ∷ xs) h = ap (λ l. x ∷ l) (limit_to_all n xs (omega arith))

pages_cover : (total limit : ℕ) → 1 ≤ limit → total ≤ ceil_div total limit * limit
unfolding ceil_div
pages_cover total limit h = grind arith

pages_bound : (total limit : ℕ) → 1 ≤ limit → ceil_div total limit * limit ≤ total + (limit - 1)
unfolding ceil_div
pages_bound total limit h = grind arith

-- Pages 1 to n, in order.
module _ (env : Env) {A : Type 0} (rows : Db → List A) (limit : ℕ) where
  unfoldable pub read_pages : ℕ → M (List A)
  read_pages zero = pure []
  read_pages (suc n) = do
    earlier ← read_pages n
    page ← list_page env rows (paging env (nat (suc n)) (nat limit))
    pure (earlier ++ page.items)

-- Every query that meets the tables d finds the rows of the list in the same order.
abbrev pub IsSteady : {A : Type 0} → Env → (Db → List A) → Db → Type 0
IsSteady env rows d = (n : ℕ) → rows (env.scan n d) ≡ rows d

module _ (env : Env) (q : IsQuiet env) {A : Type 0} (rows : Db → List A) where
  abbrev later : ℕ → World → World
  later n w = record w { ticks = w.ticks + n }

  page_quiet :
      (p : Paging) (limit offset : ℕ) (w : World)
      → IsSteady env rows w.db
      → bigint p.limit ≡ some limit
      → bigint p.offset ≡ some offset
      → list_page env rows p w ≡ (
        ok (record {
          items = slice limit offset (rows w.db);
          pagination = pagination_of p (length (rows w.db));
        }),
        record w { ticks = suc (suc w.ticks) },
      )
  unfolding list_page pure scan_order
  page_quiet p limit offset w steady l o =
      bind-ok _ _ w w (env.scan w.ticks) refl
      ∙ bind-ok _ _ w (record w { ticks = suc w.ticks }) (slice limit offset (rows w.db))
          (query_quiet env q _ w ∙ rw (l, o, steady w.ticks) refl)
      ∙ bind-ok _ _ _ (record w { ticks = suc (suc w.ticks) }) (length (rows w.db))
          (query_quiet env q _ (record w { ticks = suc w.ticks }))

  asked :
      (limit n : ℕ)
      → 1 ≤ limit
      → limit ≤ 100
      → suc n * limit < 2 ^ 63
      → (bigint (paging env (nat (suc n)) (nat limit)).limit ≡ some limit)
        × (bigint (paging env (nat (suc n)) (nat limit)).offset ≡ some (n * limit))
  unfolding paging
  asked limit n l u small = rw (limit_kept limit l u, page_kept n) (small_limit, small_offset)
    where
      small_limit : (if ltb limit (2 ^ 63) then some limit else none) ≡ some limit
      small_limit = ground arith

      small_offset :
          (if ltb ((suc n - 1) * limit) (2 ^ 63) then some ((suc n - 1) * limit) else none)
          ≡ some (n * limit)
      small_offset = rw (pred_page n) (ground (arith, less_pages n limit))

  pages_quiet :
      (limit n : ℕ) (w : World)
      → IsSteady env rows w.db
      → 1 ≤ limit
      → limit ≤ 100
      → n * limit < 2 ^ 63
      → (v : World) × (read_pages env rows limit n w ≡ (ok (limit_to (n * limit) (rows w.db)), v))
        × (v.db ≡ w.db)
  unfolding read_pages pure slice limit_to
  pages_quiet limit zero w steady l u small = (w, rw (zero_times limit) refl, refl)
  pages_quiet limit (suc n) w steady l u small =
      let earlier = pages_quiet limit n w steady l u (omega (arith, small, less_pages n limit)) in
      let page = asked limit n l u small in
      (
        record earlier.0 { ticks = suc (suc earlier.0.ticks) },
        (bind-ok _ _ w earlier.0 _ earlier.1
            ∙ bind-ok _ _ earlier.0 _ _ (
                page_quiet _ limit (n * limit) earlier.0
                  (subst (IsSteady env rows) (sym earlier.2) steady) page.0 page.1)
            ∙ ap (λ (l : List A). (ok l, record earlier.0 { ticks = suc (suc earlier.0.ticks) }))
                (ap
                    (λ (d : Db).
                      limit_to (n * limit) (rows w.db) ++ slice limit (n * limit) (rows d))
                    earlier.2
                  ∙ sym (limit_to-add (n * limit) limit (rows w.db))
                  ∙ ap (λ (k : ℕ). limit_to k (rows w.db)) (suc_times n limit))),
        earlier.2,
      )

-- With nobody else at the database and no failing query, and as long as every query finds the rows
-- of the list in the same order, as PostgreSQL does not promise for rows with the same creation
-- time: a client that asks for the pages of a list from the first to the one that the total and the
-- limit (1 to 100) call for gets every row of the list exactly once and in order, and changes
-- nothing.
pub read_pages-all :
    (env : Env) (q : IsQuiet env) {A : Type 0} (rows : Db → List A) (limit : ℕ) (w : World)
    → IsSteady env rows w.db
    → 1 ≤ limit
    → limit ≤ 100
    → length (rows w.db) + limit < 2 ^ 63
    → (v : World) × (read_pages env rows limit (ceil_div (length (rows w.db)) limit) w
        ≡ (ok (rows w.db), v))
      × (v.db ≡ w.db)
read_pages-all env q {A} rows limit w steady l u small =
    let total = length (rows w.db) in
    let pages =
      pages_quiet env q rows limit (ceil_div total limit) w steady l u
        (omega (arith, pages_bound total limit l)) in
    (
      pages.0,
      (pages.1
          ∙ ap (λ (xs : List A). (ok xs, pages.0))
              (limit_to_all (ceil_div total limit * limit) (rows w.db)
                (pages_cover total limit l))),
      pages.2,
    )
