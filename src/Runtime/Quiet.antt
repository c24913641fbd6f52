-- ===== src/Runtime/Quiet.antt =====
-- Runs with nobody else at the database and no failing query, step by step.
use gov_flow.Prelude.{ℕ, suc, ◌≡◌, refl, none, String, List, []}
use gov_flow.Errors.{Error, FieldError}
use gov_flow.Database.{Db}
use gov_flow.Runtime.{
  Result, ok, err, Env, World, M, ◌>>=◌, try, await, settle, query, require_valid, require, pure,
}

pub record IsQuiet (env : Env) : Type 0 where
  pub alone : (n : ℕ) (d : Db) → env.others n d ≡ d
  pub serial : (n : ℕ) (d : Db) → env.meanwhile n d ≡ d
  pub healthy : (n : ℕ) → env.outage n ≡ none

module _ {A B : Type 0} where
  pub bind-ok :
      (m : M A) (f : A → M B) (w w' : World) (a : A) → m w ≡ (ok a, w') → (m >>= f) w ≡ f a w'
  unfolding ◌>>=◌
  bind-ok m f w w' a e = rw e refl

  pub bind-err :
      (m : M A) (f : A → M B) (w w' : World) (x : Error)
      → m w ≡ (err x, w')
      → (m >>= f) w ≡ (err x, w')
  unfolding ◌>>=◌
  bind-err m f w w' x e = rw e refl

module _ {A : Type 0} where
  pub try-ok :
      (m : M A) (h : Error → M A) (w w' : World) (a : A) → m w ≡ (ok a, w') → try m h w ≡ (ok a, w')
  unfolding try
  try-ok m h w w' a e = rw e refl

  pub try-err :
      (m : M A) (h : Error → M A) (w w' : World) (x : Error)
      → m w ≡ (err x, w')
      → try m h w ≡ h x w'
  unfolding try
  try-err m h w w' x e = rw e refl

  pub query_quiet :
      (env : Env)
      → IsQuiet env
      → (op : ℕ → Db → Result (A × Db)) (w : World)
      → query env op w ≡ settle env (op (env.now w.ticks) w.db) (record w { ticks = suc w.ticks })
  unfolding query await
  query_quiet env q op w = rw (q.healthy w.ticks, q.alone w.ticks w.db, query) refl

pub require_valid-ok :
    (message : String) (errors : List FieldError) (w : World)
    → errors ≡ []
    → require_valid message errors w ≡ (ok tt, w)
unfolding require_valid require pure
require_valid-ok message errors w e = rw e refl
