-- ===== src/Runtime/Silent.antt =====
-- Runs that make no call of Jira, whatever the other actors and the database do.
use gov_flow.Prelude.{
  ℕ, ◌≡◌, refl, ◌∙◌, Bool, true, false, List, String, is_empty, if◌then◌else◌, inl, inr,
  Option-cases,
}
use gov_flow.Errors.{Error, FieldError}
use gov_flow.Database.{Db}
use gov_flow.Runtime.{
  Result, ok, err, Env, World, M, pure, throw, continue, ◌>>=◌, recover, try, require,
  require_valid, await, settle, query, clock,
}

pub record Silent {A : Type 0} (m : M A) : Type 0 where
  pub at : (w : World) → (m w).1.jira_calls ≡ w.jira_calls

pub Silent-pure : {A : Type 0} (a : A) → Silent (pure a)
unfolding pure
Silent-pure a = record { at = λ w. refl }

pub Silent-throw : {A : Type 0} (e : Error) → Silent (throw {A = A} e)
unfolding throw
Silent-throw e = record { at = λ w. refl }

continue-Silent :
    {A B : Type 0} (r : Result A) (f : A → M B) (w : World)
    → ((a : A) → Silent (f a))
    → (continue r f w).1.jira_calls ≡ w.jira_calls
continue-Silent (ok a) f w k = (k a).at w
continue-Silent (err e) f w k = refl

pub Silent-bind :
    {A B : Type 0} (m : M A) (f : A → M B) → Silent m → ((a : A) → Silent (f a)) → Silent (m >>= f)
unfolding ◌>>=◌
Silent-bind m f km kf = record { at = λ w. continue-Silent (m w).0 f (m w).1 kf ∙ km.at w }

recover-Silent :
    {A : Type 0} (r : Result A) (handler : Error → M A) (w : World)
    → ((e : Error) → Silent (handler e))
    → (recover r handler w).1.jira_calls ≡ w.jira_calls
recover-Silent (ok a) handler w k = refl
recover-Silent (err e) handler w k = (k e).at w

pub Silent-try :
    {A : Type 0} (m : M A) (handler : Error → M A)
    → Silent m
    → ((e : Error) → Silent (handler e))
    → Silent (try m handler)
unfolding try
Silent-try m handler km kh = record {
  at = λ w. recover-Silent (m w).0 handler (m w).1 kh ∙ km.at w;
}

pub Silent-if :
    {A : Type 0} (b : Bool) (m n : M A) → Silent m → Silent n → Silent (if b then m else n)
Silent-if true m n km kn = km
Silent-if false m n km kn = kn

pub Silent-require : (b : Bool) (e : Error) → Silent (require b e)
unfolding require
Silent-require true e = Silent-pure tt
Silent-require false e = Silent-throw e

pub Silent-require_valid : (s : String) (l : List FieldError) → Silent (require_valid s l)
unfolding require_valid
Silent-require_valid s l = Silent-require (is_empty l) _

settle-silent :
    {A : Type 0} (env : Env) (r : Result (A × Db)) (w : World)
    → (settle env r w).1.jira_calls ≡ w.jira_calls
settle-silent env (ok (a, d)) w = refl
settle-silent env (err e) w = refl

pub Silent-query : {A : Type 0} (env : Env) (op : ℕ → Db → Result (A × Db)) → Silent (query env op)
unfolding query await
Silent-query env op = record {
  at = λ w. elim (Option-cases (env.outage w.ticks)) [
    | inl e ↦ rw (e, query) (settle-silent env _ (await env w))
    | inr (x, e) ↦ rw (e, query) refl
  ];
}

pub Silent-clock : (env : Env) → Silent (clock env)
unfolding clock
Silent-clock env = record { at = λ w. refl }

pub ruleset silence = (
  Silent-pure, Silent-throw, Silent-bind, Silent-try, Silent-if, Silent-require,
  Silent-require_valid, Silent-query, Silent-clock,
)
