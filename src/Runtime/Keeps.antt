-- ===== src/Runtime/Keeps.antt =====
-- Relations between the world before a run and the world after it, with a rule for each way to
-- build a run. The relation is one that the other actors respect too.
use gov_flow.Prelude.{
  ℕ, zero, suc, ◌+◌, ◌-◌, Bool, true, false, List, Option, none, some, ◌≡◌, refl, if◌then◌else◌,
  Option-cases, inl, inr, String, is_empty,
}
use gov_flow.Errors.{Error, FieldError}
use gov_flow.Database.{Db}
use gov_flow.Runtime.{
  Result, ok, err, JiraRequest, Env, World, M, pure, throw, continue, ◌>>=◌, recover, try, require,
  require_some, require_valid, await, settle, query, clock, call_jira, close, transaction,
  statement, between, outside,
}

-- Whatever the run returns or throws, its databases before and after are related.
pub record Keeps {A : Type 0} (R : Db → Db → Type 0) (m : M A) : Type 0 where
  pub at : (w : World) → R w.db (m w).1.db

-- What the rules need of the relation.
pub record IsRely (env : Env) (R : Db → Db → Type 0) : Type 0 where
  pub same : (d : Db) → R d d
  pub chain : (a b c : Db) → R a b → R b c → R a c
  pub others : (n : ℕ) (d : Db) → R d (env.others n d)
  pub meanwhile : (n : ℕ) (d : Db) → R d (env.meanwhile n d)

-- A statement whose result is related to the database that it found.
abbrev pub OpKeeps : {A : Type 0} → (Db → Db → Type 0) → (ℕ → Db → Result (A × Db)) → Type 0
OpKeeps {A} R op = (n : ℕ) (d d' : Db) (a : A) → op n d ≡ ok (a, d') → R d d'

module _ {env : Env} {R : Db → Db → Type 0} (rely : IsRely env R) where
  pub Keeps-pure : {A : Type 0} (a : A) → Keeps R (pure a)
  unfolding pure
  Keeps-pure a = record { at = λ w. rely.same w.db }

  pub Keeps-throw : {A : Type 0} (e : Error) → Keeps R (throw {A = A} e)
  unfolding throw
  Keeps-throw e = record { at = λ w. rely.same w.db }

  continue-at :
      {A B : Type 0} (r : Result A) (f : A → M B) (w : World)
      → ((a : A) → Keeps R (f a))
      → R w.db (continue r f w).1.db
  continue-at (ok a) f w k = (k a).at w
  continue-at (err e) f w k = rely.same w.db

  pub Keeps-bind :
      {A B : Type 0} (m : M A) (f : A → M B)
      → Keeps R m
      → ((a : A) → Keeps R (f a))
      → Keeps R (m >>= f)
  unfolding ◌>>=◌
  Keeps-bind m f km kf = record {
    at = λ w. rely.chain _ _ _ (km.at w) (continue-at (m w).0 f (m w).1 kf);
  }

  recover-at :
      {A : Type 0} (r : Result A) (handler : Error → M A) (w : World)
      → ((e : Error) → Keeps R (handler e))
      → R w.db (recover r handler w).1.db
  recover-at (ok a) handler w k = rely.same w.db
  recover-at (err e) handler w k = (k e).at w

  pub Keeps-try :
      {A : Type 0} (m : M A) (handler : Error → M A)
      → Keeps R m
      → ((e : Error) → Keeps R (handler e))
      → Keeps R (try m handler)
  unfolding try
  Keeps-try m handler km kh = record {
    at = λ w. rely.chain _ _ _ (km.at w) (recover-at (m w).0 handler (m w).1 kh);
  }

  pub Keeps-if :
      {A : Type 0} (b : Bool) (m n : M A) → Keeps R m → Keeps R n → Keeps R (if b then m else n)
  Keeps-if true m n km kn = km
  Keeps-if false m n km kn = kn

  pub Keeps-require : (b : Bool) (e : Error) → Keeps R (require b e)
  unfolding require
  Keeps-require true e = Keeps-pure tt
  Keeps-require false e = Keeps-throw e

  pub Keeps-require_some : {A : Type 0} (o : Option A) (e : Error) → Keeps R (require_some o e)
  unfolding require_some
  Keeps-require_some (some a) e = Keeps-pure a
  Keeps-require_some none e = Keeps-throw e

  pub Keeps-require_valid : (s : String) (l : List FieldError) → Keeps R (require_valid s l)
  unfolding require_valid
  Keeps-require_valid s l = Keeps-require (is_empty l) _

  pub Keeps-call_jira : (r : JiraRequest) → Keeps R (call_jira env r)
  unfolding call_jira
  Keeps-call_jira r = record { at = λ w. rely.same w.db }

  pub Keeps-clock : Keeps R (clock env)
  unfolding clock
  Keeps-clock = record { at = λ w. rely.same w.db }

  settle-at :
      {A : Type 0} (r : Result (A × Db)) (w : World)
      → ((a : A) (d : Db) → r ≡ ok (a, d) → R w.db d)
      → R w.db (settle env r w).1.db
  settle-at (ok (a, d)) w k = k a d refl
  settle-at (err e) w k = rely.same w.db

  pub Keeps-query :
      {A : Type 0} (op : ℕ → Db → Result (A × Db)) → OpKeeps R op → Keeps R (query env op)
  unfolding query await
  Keeps-query op k = record {
    at = λ w. elim (Option-cases (env.outage w.ticks)) [
      | inl e ↦
          rw (e, query)
            (rely.chain _ _ _ (rely.others w.ticks w.db) (
              settle-at (op (env.now w.ticks) (env.others w.ticks w.db)) (await env w)
                (λ a d. k (env.now w.ticks) (env.others w.ticks w.db) d a)))
      | inr (x, e) ↦ rw (e, query) (rely.others w.ticks w.db)
    ];
  }

  pub Keeps-statement :
      {A : Type 0} (op : ℕ → Db → Result (A × Db)) → OpKeeps R op → Keeps R (statement env op)
  unfolding statement
  Keeps-statement op k = record {
    at = λ w. elim (Option-cases (env.outage w.ticks)) [
      | inl e ↦
          rw (e, statement)
            (rely.chain _ _ _ (rely.meanwhile w.ticks w.db) (
              settle-at (op (env.now w.ticks) (between env w).db) (between env w)
                (λ a d. k (env.now w.ticks) (between env w).db d a)))
      | inr (x, e) ↦ rw (e, statement) (rely.meanwhile w.ticks w.db)
    ];
  }

  outside-at : (start count : ℕ) (d : Db) → R d (outside env start count d)
  unfolding outside
  outside-at start zero d = rely.same d
  outside-at start (suc n) d =
      rely.chain _ _ _ (outside-at start n d) (rely.meanwhile (start + n) _)

  close-at :
      {A : Type 0} (before : World) (r : Result A) (w : World)
      → R before.db w.db
      → R before.db (close env before (r, w)).1.db
  close-at before (ok a) w h = h
  close-at before (err e) w h = outside-at before.ticks (w.ticks - before.ticks) before.db

  pub Keeps-transaction : {A : Type 0} (m : M A) → Keeps R m → Keeps R (transaction env m)
  unfolding transaction await
  Keeps-transaction m k = record {
    at = λ w.
        rely.chain _ _ _ (rely.others w.ticks w.db)
          (close-at (await env w) (m (await env w)).0 (m (await env w)).1 (k.at (await env w)));
  }
