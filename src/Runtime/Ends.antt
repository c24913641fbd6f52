-- ===== src/Runtime/Ends.antt =====
-- What a run that returns a value ends in.
use gov_flow.Prelude.{
  ap, sym, ◌∙◌, ◌≡◌, ℕ, ◌≡◌, refl, Option, none, some, ◌⊎◌, inl, inr, Option-cases, arith,
}
use gov_flow.Errors.{Error}
use gov_flow.Database.{Db}
use gov_flow.Runtime.{
  Env, World, M, Result, ok, err, pure, throw, continue, ◌>>=◌, require_some, await, query,
  statement, settle, between,
}

-- A run that returns ends in P; one that throws may end anywhere.
abbrev pub Ends : {A : Type 0} → (A → World → Type 0) → Result A × World → Type 0
Ends P (ok a, w) = P a w
Ends P (err e, w) = Unit {0}

Ends-continue :
    {A B : Type 0} (P : A → World → Type 0) (Q : B → World → Type 0) (f : A → M B)
    → (r : Result A) (w : World) → Ends P (r, w)
    → ((a : A) (v : World) → P a v → Ends Q (f a v))
    → Ends Q (continue r f w)
Ends-continue P Q f (ok a) w h k = k a w h
Ends-continue P Q f (err e) w h k = tt

pub Ends-bind :
    {A B : Type 0} (P : A → World → Type 0) (Q : B → World → Type 0) (m : M A) (f : A → M B)
    → (w : World) → Ends P (m w)
    → ((a : A) (v : World) → P a v → Ends Q (f a v))
    → Ends Q ((m >>= f) w)
unfolding ◌>>=◌
Ends-bind P Q m f w h k = Ends-continue P Q f (m w).0 (m w).1 h k

pub Ends-require_some :
    {A : Type 0} (P : A → World → Type 0) (o : Option A) (e : Error) (w : World)
    → ((a : A) → o ≡ some a → P a w)
    → Ends P (require_some o e w)
unfolding require_some pure throw
Ends-require_some P none e w h = tt
Ends-require_some P (some a) e w h = h a refl

Ends-settle :
    {A : Type 0} (env : Env) (P : A → World → Type 0) (r : Result (A × Db)) (w : World)
    → ((a : A) (v : World) → r ≡ ok (a, v.db) → P a v)
    → Ends P (settle env r w)
Ends-settle env P (ok (a, d)) w h = h a (record w { db = d }) refl
Ends-settle env P (err e) w h = tt

pub Ends-statement :
    {A : Type 0} (env : Env) (P : A → World → Type 0) (op : ℕ → Db → Result (A × Db)) (w : World)
    → ((n : ℕ) (a : A) (v : World) → op n (between env w).db ≡ ok (a, v.db) → P a v)
    → Ends P (statement env op w)
unfolding statement
Ends-statement env P op w h = elim (Option-cases (env.outage w.ticks)) [
  | inl e ↦
      rw (e, statement)
        (Ends-settle env P (op (env.now w.ticks) (between env w).db) (between env w)
          (λ a v. h (env.now w.ticks) a v))
  | inr (x, e) ↦ rw (e, statement) tt
]

-- No other client commits between the statements of a transaction.
pub record IsSerial (env : Env) : Type 0 where
  pub serial : (n : ℕ) (d : Db) → env.meanwhile n d ≡ d

pub Ends-serial :
    {A : Type 0} (env : Env) (s : IsSerial env) (P : A → World → Type 0)
    (op : ℕ → Db → Result (A × Db)) (w : World)
    → ((n : ℕ) (a : A) (v : World) → op n w.db ≡ ok (a, v.db) → P a v)
    → Ends P (statement env op w)
Ends-serial env s P op w h =
    Ends-statement env P op w
      (λ n a v e. h n a v (ap (λ d. op n d) (sym (s.serial w.ticks w.db)) ∙ e))

pub Ends-query :
    {A : Type 0} (env : Env) (P : A → World → Type 0) (op : ℕ → Db → Result (A × Db)) (w : World)
    → ((n : ℕ) (a : A) (v : World) → op n (await env w).db ≡ ok (a, v.db) → P a v)
    → Ends P (query env op w)
unfolding query
Ends-query env P op w h = elim (Option-cases (env.outage w.ticks)) [
  | inl e ↦
      rw (e, query)
        (Ends-settle env P (op (env.now w.ticks) (await env w).db) (await env w)
          (λ a v. h (env.now w.ticks) a v))
  | inr (x, e) ↦ rw (e, query) tt
]

-- A condition that holds of every value and world.
pub Ends-any :
    {A : Type 0} (P : A → World → Type 0) (r : Result A) (w : World)
    → ((a : A) (v : World) → P a v)
    → Ends P (r, w)
Ends-any P (ok a) w h = h a w
Ends-any P (err e) w h = tt

pub Ends-weaken :
    {A : Type 0} (P Q : A → World → Type 0) (r : Result A × World)
    → Ends P r
    → ((a : A) (v : World) → P a v → Q a v)
    → Ends Q r
Ends-weaken P Q (ok a, w) h k = k a w h
Ends-weaken P Q (err e, w) h k = tt

-- A run throws, or it returns a value with what it ends in.
pub Ends-cases :
    {A : Type 0} (P : A → World → Type 0) (r : Result A) (w : World)
    → Ends P (r, w)
    → ((e : Error) × (r ≡ err e)) ⊎ ((a : A) × (r ≡ ok a) × P a w)
Ends-cases P (ok a) w h = inr (a, refl, h)
Ends-cases P (err e) w h = inl (e, refl)

pub ok-db :
    {A : Type 0} (a b : A) (d d' : Db) → ◌≡◌ {A = Result (A × Db)} (ok (a, d)) (ok (b, d')) → d ≡ d'
ok-db a b d d' e = ground arith

pub ok-value :
    {A : Type 0} (a b : A) (d d' : Db) → ◌≡◌ {A = Result (A × Db)} (ok (a, d)) (ok (b, d')) → a ≡ b
ok-value a b d d' e = ground arith
