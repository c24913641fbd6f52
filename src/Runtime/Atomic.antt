-- ===== src/Runtime/Atomic.antt =====
-- A transaction writes all or nothing; what an INSERT that went through has met.
use gov_flow.Prelude.{
  ℕ, zero, suc, ◌-◌, ◌∙◌, String, Bool, true, false, ◌≡◌, refl, ◌⊎◌, inl, inr, List, [], ◌∷◌,
}
use gov_flow.Errors.{Error, FieldError}
use gov_flow.Database.{Db}
use gov_flow.Runtime.{
  Env, World, M, Result, ok, err, await, close, outside, transaction, new_ids, require,
  require_valid, pure, throw, try, recover,
}
use gov_flow.Runtime.Ends.{Ends, IsSerial}
use gov_flow.Runtime.Insert.{check}

-- A run that threw left the tables `before`; one that returned a value ended in P.
abbrev pub AllOrNothing : {A : Type 0} → (A → Db → Type 0) → Db → Result A × World → Type 0
AllOrNothing {A} P before r =
    ((e : Error) × (r.0 ≡ err e) × (r.1.db ≡ before)) ⊎ ((a : A) × (r.0 ≡ ok a) × P a r.1.db)

-- Where no other client commits meanwhile, a rollback leaves the tables that BEGIN found.
outside_serial :
    (env : Env) (s : IsSerial env) (start count : ℕ) (d : Db) → outside env start count d ≡ d
unfolding outside
outside_serial env s start zero d = refl
outside_serial env s start (suc n) d = s.serial _ _ ∙ outside_serial env s start n d

closed :
    {A : Type 0} (env : Env) (s : IsSerial env) (P : A → Db → Type 0) (before : World)
    (r : Result A) (v : World)
    → Ends (λ a u. P a u.db) (r, v)
    → AllOrNothing P before.db (close env before (r, v))
closed env s P before (ok a) v h = inr (a, refl, h)
closed env s P before (err e) v h =
    inl (e, refl, outside_serial env s before.ticks (v.ticks - before.ticks) before.db)

pub transaction-AllOrNothing :
    {A : Type 0} (env : Env) (s : IsSerial env) (P : A → Db → Type 0) (body : M A) (w : World)
    → Ends (λ a v. P a v.db) (body (await env w))
    → AllOrNothing P (await env w).db (transaction env body w)
unfolding transaction
transaction-AllOrNothing env s P body w h = closed env s P (await env w) _ _ h

pub check-ok :
    {A : Type 0} (b : Bool) (e : Error) (r : Result A) (a : A)
    → check b e r ≡ ok a
    → (b ≡ true) × (r ≡ ok a)
unfolding check
check-ok true e r a h = (refl, h)
check-ok false e r a h = cc

pub Ends-new_ids :
    (env : Env) (P : (ℕ → String) → World → Type 0) (w : World)
    → P (env.uuid w.ticks) w
    → Ends P (new_ids env w)
unfolding new_ids
Ends-new_ids env P w h = h

pub Ends-require :
    (b : Bool) (e : Error) (P : Unit {0} → World → Type 0) (w : World)
    → (b ≡ true → P tt w)
    → Ends P (require b e w)
unfolding require
Ends-require true e P w h = h refl
Ends-require false e P w h = tt

pub valid-same :
    (message : String) (errors : List FieldError) (w : World)
    → Ends (λ u v. v ≡ w) (require_valid message errors w)
unfolding require_valid require pure throw
valid-same message [] w = refl
valid-same message (e ∷ es) w = tt

pub Ends-require_valid :
    (message : String) (errors : List FieldError) (P : Unit {0} → World → Type 0) (w : World)
    → (errors ≡ [] → P tt w)
    → Ends P (require_valid message errors w)
unfolding require_valid require pure throw
Ends-require_valid message [] P w h = h refl
Ends-require_valid message (e ∷ es) P w h = tt

-- A handler that only turns an error into another one
pub Ends-try-throw :
    {A : Type 0} (P : A → World → Type 0) (m : M A) (f : Error → Error) (w : World)
    → Ends P (m w)
    → Ends P (try m (λ e. throw (f e)) w)
unfolding try throw
Ends-try-throw {A} P m f w h = handled (m w).0 (m w).1 h
  where
    handled : (r : Result A) (v : World) → Ends P (r, v) → Ends P (recover r (λ e. throw (f e)) v)
    handled (ok a) v h = h
    handled (err e) v h = tt

pub Ends-at :
    {A : Type 0} (Q : World → Type 0) (r : Result A) (v : World) → Q v → Ends (λ a u. Q u) (r, v)
Ends-at Q (ok a) v h = h
Ends-at Q (err e) v h = tt
