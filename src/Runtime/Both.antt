-- ===== src/Runtime/Both.antt =====
-- What holds at both ends of a run: one condition where it returns, another where it throws.
use gov_flow.Prelude.{
  ℕ, String, Bool, true, false, ◌≡◌, refl, List, [], ◌∷◌, Option, none, some, inl, inr,
  Option-cases,
}
use gov_flow.Errors.{Error, FieldError}
use gov_flow.Database.{Db}
use gov_flow.Runtime.{
  Env, World, M, Result, ok, err, pure, throw, continue, ◌>>=◌, require, require_some,
  require_valid, await, settle, query,
}

abbrev pub Both : {A : Type 0} → (A → World → Type 0) → (World → Type 0) → Result A × World → Type 0
Both P E (ok a, w) = P a w
Both P E (err e, w) = E w

module _ {A : Type 0} (E : World → Type 0) where
  continue-Both :
      {B : Type 0} (P : B → World → Type 0) (Q : A → World → Type 0) (f : B → M A) (r : Result B)
      (w : World)
      → Both P E (r, w)
      → ((b : B) (v : World) → P b v → Both Q E (f b v))
      → Both Q E (continue r f w)
  continue-Both P Q f (ok b) w h k = k b w h
  continue-Both P Q f (err e) w h k = h

  pub Both-bind :
      {B : Type 0} (P : B → World → Type 0) (Q : A → World → Type 0) (m : M B) (f : B → M A)
      (w : World)
      → Both P E (m w)
      → ((b : B) (v : World) → P b v → Both Q E (f b v))
      → Both Q E ((m >>= f) w)
  unfolding ◌>>=◌
  Both-bind P Q m f w h k = continue-Both P Q f (m w).0 (m w).1 h k

  pub Both-require_some :
      (P : A → World → Type 0) (o : Option A) (e : Error) (w : World)
      → ((a : A) → o ≡ some a → P a w)
      → E w
      → Both P E (require_some o e w)
  unfolding require_some pure throw
  Both-require_some P none e w h x = x
  Both-require_some P (some a) e w h x = h a refl

  settle-Both :
      (env : Env) (P : A → World → Type 0) (r : Result (A × Db)) (w : World)
      → ((a : A) (d : Db) → r ≡ ok (a, d) → P a (record w { db = d }))
      → E w
      → Both P E (settle env r w)
  settle-Both env P (ok (a, d)) w h x = h a d refl
  settle-Both env P (err e) w h x = x

  pub Both-query :
      (env : Env) (P : A → World → Type 0) (op : ℕ → Db → Result (A × Db)) (w : World)
      → ((n : ℕ) (a : A) (d : Db)
          → op n (await env w).db ≡ ok (a, d)
          → P a (record (await env w) { db = d }))
      → E (await env w)
      → Both P E (query env op w)
  unfolding query
  Both-query env P op w h x = elim (Option-cases (env.outage w.ticks)) [
    | inl e ↦
        rw (e, query)
          (settle-Both env P (op (env.now w.ticks) (await env w).db) (await env w)
            (λ a d. h (env.now w.ticks) a d) x)
    | inr (y, e) ↦ rw (e, query) x
  ]

module _ (E : World → Type 0) (P : Unit {0} → World → Type 0) (w : World) where
  pub Both-require : (b : Bool) (e : Error) → (b ≡ true → P tt w) → E w → Both P E (require b e w)
  unfolding require pure throw
  Both-require true e h x = h refl
  Both-require false e h x = x

  pub Both-require_valid :
      (message : String) (errors : List FieldError)
      → P tt w
      → E w
      → Both P E (require_valid message errors w)
  unfolding require_valid require pure throw
  Both-require_valid message [] h x = h
  Both-require_valid message (e ∷ es) h x = x

-- A check that leaves the world as it is, and what comes after it.
module _ {A : Type 0} (E : World → Type 0) (Q : A → World → Type 0) (w : World) where
  pub Both-after_some :
      {B : Type 0} (o : Option B) (e : Error) (f : B → M A)
      → ((b : B) → o ≡ some b → Both Q E (f b w))
      → E w
      → Both Q E ((require_some o e >>= f) w)
  unfolding ◌>>=◌ require_some pure throw
  Both-after_some none e f h x = x
  Both-after_some (some b) e f h x = h b refl

  pub Both-after_require :
      (b : Bool) (e : Error) (f : Unit {0} → M A)
      → (b ≡ true → Both Q E (f tt w))
      → E w
      → Both Q E ((require b e >>= f) w)
  unfolding ◌>>=◌ require pure throw
  Both-after_require true e f h x = h refl
  Both-after_require false e f h x = x

  pub Both-after_valid :
      (message : String) (errors : List FieldError) (f : Unit {0} → M A)
      → Both Q E (f tt w)
      → E w
      → Both Q E ((require_valid message errors >>= f) w)
  unfolding ◌>>=◌ require_valid require pure throw
  Both-after_valid message [] f h x = h
  Both-after_valid message (e ∷ es) f h x = x
