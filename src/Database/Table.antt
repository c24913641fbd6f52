-- ===== src/Database/Table.antt =====
-- A table as a list of rows under a primary key, and the two kinds of UPDATE: of the row with a
-- key, and of all rows that satisfy a condition.
use gov_flow.Prelude.{
  String, ◌≡◌, refl, Bool, true, false, List, [], ◌∷◌, Option, none, some, arith, ◌==◌, eq_iff,
  if◌then◌else◌, inl, inr, Bool-cases,
}
use mathlib.Core.Option

module _ {Row : Type 0} (key : Row → String) where
  -- `SELECT … WHERE id = $1`
  unfoldable pub lookup : String → List Row → Option Row
  lookup k [] = none
  lookup k (r ∷ rs) = if key r == k then some r else lookup k rs

  -- `UPDATE … SET … WHERE id = $1 AND guard RETURNING *`, its table and its first row
  unfoldable pub update : String → (Row → Bool) → (Row → Row) → List Row → List Row
  update k guard set [] = []
  update k guard set (r ∷ rs) =
      let rest = update k guard set rs in
      if key r == k then (if guard r then set r else r) ∷ rs else r ∷ rest

  unfoldable pub updated : String → (Row → Bool) → (Row → Row) → List Row → Option Row
  unfolding lookup
  updated k guard set rs = elim (lookup k rs) [
    | none ↦ none
    | some r ↦ if guard r then some (set r) else none
  ]

  module _ (k : String) (guard : Row → Bool) (set : Row → Row) (rs : List Row) where
    pub updated-eq-some :
        (r : Row) → lookup k rs ≡ some r → guard r ≡ true → updated k guard set rs ≡ some (set r)
    unfolding updated
    updated-eq-some r e g = rw (e, updated) (rw g refl)

    pub updated-eq-none :
        (r : Row) → lookup k rs ≡ some r → guard r ≡ false → updated k guard set rs ≡ none
    unfolding updated
    updated-eq-none r e g = rw (e, updated) (rw g refl)

  abbrev pub guarded : (Row → Bool) → (Row → Row) → Row → Row
  guarded guard set r = if guard r then set r else r

  module _ (guard : Row → Bool) (set : Row → Row) (same : (r : Row) → key (set r) ≡ key r) where
    pub key-guarded : (r : Row) → key (guarded guard set r) ≡ key r
    key-guarded r = elim (Bool-cases (guard r)) [ inl e ↦ rw e (same r) | inr e ↦ rw e refl ]

    -- An update by key changes the row under that key alone.
    pub lookup-update :
        (k j : String) (rs : List Row)
        → lookup j (update k guard set rs)
          ≡ (if k == j then Option.map (guarded guard set) (lookup j rs) else lookup j rs)
    unfolding lookup update
    lookup-update k j [] = ground arith
    lookup-update k j (r ∷ rs) = ground (
      arith,
      eq_iff k j,
      eq_iff (key r) k,
      eq_iff (key r) j,
      key-guarded r,
      same r,
      eq_iff (key (set r)) j,
      lookup-update k j rs,
    )

module _ {Row : Type 0} (key : Row → String) where
  -- `UPDATE … SET … WHERE cond`
  unfoldable pub update_all : (Row → Bool) → (Row → Row) → List Row → List Row
  update_all cond set [] = []
  update_all cond set (r ∷ rs) = (if cond r then set r else r) ∷ update_all cond set rs

  module _ (cond : Row → Bool) (set : Row → Row) (same : (r : Row) → key (set r) ≡ key r) where
    pub lookup-update_all :
        (j : String) (rs : List Row)
        → lookup key j (update_all cond set rs)
          ≡ Option.map (guarded key cond set) (lookup key j rs)
    unfolding lookup update_all
    lookup-update_all j [] = refl
    lookup-update_all j (r ∷ rs) =
        ground (arith, eq_iff (key r) j, same r, eq_iff (key (set r)) j, lookup-update_all j rs)
