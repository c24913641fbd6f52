-- ===== src/Users/Login/Uniform.antt =====
-- What a login asks for, and what a failed one tells.
use gov_flow.Prelude.{
  suc, [], String, Bool, true, false, not, ◌≡◌, refl, sym, ◌∙◌, ap, subst, Option, none, some, find,
  if◌then◌else◌,
}
use gov_flow.Js.Value.{Value, text_of}
use gov_flow.Database.{User}
use gov_flow.AuditLogs.{safe_register_audit_log}
use gov_flow.AuditLogs.Safe.{safe_register-ok}
use gov_flow.Validators.AuditLogs.{AuditPayload}
use gov_flow.Validators.Users.{validate_login}
use gov_flow.Runtime.{Env, World, M, Result, err, pure, throw, await, require_valid}
use gov_flow.Runtime.Ends.{Ends, Ends-bind, Ends-query, Ends-any, Ends-weaken, ok-value}
use gov_flow.Runtime.Quiet.{IsQuiet, bind-ok, query_quiet, require_valid-ok}
use gov_flow.Runtime.Atomic.{valid-same}
use gov_flow.Users.Platform.{Platform, compare_password, sign_access_token}
use gov_flow.Users.Repository.{public_user, has_email, find_by_email}
use gov_flow.Users.Service.{normalized_email}
use gov_flow.Users.Login.{
  Session, invalid_credentials, hash_to_compare, deny_login, open_session, finish_login, login,
}

module _ (env : Env) (p : Platform) where
  -- The row of an active user with that password
  abbrev pub Admits : String → User → Type 0
  Admits password u = (u.is_active ≡ true) × (p.compare password u.password_hash ≡ true)

  deny-Ends :
      (P : Session → World → Type 0) (audit : AuditPayload) (w : World)
      → Ends P (deny_login env p audit w)
  unfolding deny_login throw
  deny-Ends P audit w =
      Ends-bind (λ u v. Unit) _ (safe_register_audit_log env audit) _ w
        (Ends-any (λ u v. Unit) _ _ (λ u v. tt)) (λ u v h. tt)

  open-Ends : (u : User) (w : World) → Ends (λ s v. s.user ≡ public_user u) (open_session env p u w)
  unfolding open_session pure
  open-Ends u w =
      Ends-bind (λ t v. Unit) _ (sign_access_token p _) _ w (Ends-any (λ t v. Unit) _ _ (λ t v. tt))
        (λ t v h.
          Ends-bind (λ x v. Unit) _ (safe_register_audit_log env _) _ v
            (Ends-any (λ x v. Unit) _ _ (λ x v. tt)) (λ x v2 h2. refl))

  -- The two guards of a login, for a known user
  guards-Ends :
      (P : Session → World → Type 0) (matches active : Bool) (a b : AuditPayload) (m : M Session)
      (w : World)
      → (matches ≡ true → active ≡ true → Ends P (m w))
      → Ends P (
          (if not matches then deny_login env p a else if not active then deny_login env p b else m)
            w)
  guards-Ends P false active a b m w h = deny-Ends P a w
  guards-Ends P true false a b m w h = deny-Ends P b w
  guards-Ends P true true a b m w h = h refl refl

  -- The session of a user that a query may have found
  abbrev pub IsSessionOf : Option User → String → Session → World → Type 0
  IsSessionOf user password s v =
      (u : User) × (user ≡ some u) × Admits password u × (s.user ≡ public_user u)

  finish-Ends :
      (user : Option User) (password : String) (w : World)
      → Ends
          (IsSessionOf user password)
          (finish_login env p user (p.compare password (hash_to_compare user)) w)
  unfolding finish_login
  finish-Ends none password w = deny-Ends _ _ w
  finish-Ends (some u) password w =
      guards-Ends _ (p.compare password u.password_hash) u.is_active _ _ (open_session env p u) w
        (λ e a.
          Ends-weaken (λ s v. s.user ≡ public_user u) (IsSessionOf (some u) password) _
            (open-Ends u w) (λ s v h. (u, refl, (a, e), h)))

  -- In any environment: if a login returns a session, then the row that its query found under the
  -- normalized e-mail is that of an active user whose hash the password matches, and the session is
  -- that user's.
  pub login-Admits :
      (email password : Value) (w : World)
      → Ends
          (IsSessionOf
            (find (has_email p (normalized_email env p email)) (await env w).db.users)
            (text_of password))
          (login env p email password w)
  unfolding login compare_password find_by_email
  login-Admits email password w =
      Ends-bind (λ x v. v ≡ w) _ (require_valid _ _) _ w (valid-same _ _ w)
        (λ x v same.
          Ends-bind
            (λ user u.
              user ≡ find (has_email p (normalized_email env p email)) (await env w).db.users)
            _ _ _ v
            (Ends-query env _ _ v (λ n user u e.
              sym (ok-value _ user (await env v).db u.db e)
              ∙ ap
                  (λ (z : World).
                    find (has_email p (normalized_email env p email)) (await env z).db.users)
                  same))
            (λ user v2 found.
              Ends-bind (λ m u. (m ≡ p.compare (text_of password) (hash_to_compare user))) _ _ _ v2
                refl
                (λ m v4 e4.
                  subst
                    (λ (b : Bool).
                      Ends
                        (IsSessionOf
                          (find (has_email p (normalized_email env p email)) (await env w).db.users)
                          (text_of password))
                        (finish_login env p user b v4))
                    (sym e4)
                    (Ends-weaken (IsSessionOf user (text_of password)) _ _
                      (finish-Ends user (text_of password) v4)
                      (λ s v3 (u, e, a, h). (u, sym found ∙ e, a, h))))))

  denied :
      (audit : AuditPayload) (w : World) → (deny_login env p audit w).0 ≡ err invalid_credentials
  unfolding deny_login throw
  denied audit w =
      ap (λ (r : Result Session × World). r.0)
        (bind-ok (safe_register_audit_log env audit) _ w _ tt (safe_register-ok env audit w))

  guards-denied :
      (matches active : Bool) (a b : AuditPayload) (m : M Session) (w : World)
      → (matches ≡ true → active ≡ true → ⊥)
      → ((if not matches then deny_login env p a else if not active then deny_login env p b else m)
          w).0
        ≡ err invalid_credentials
  guards-denied false active a b m w h = denied a w
  guards-denied true false a b m w h = denied b w
  guards-denied true true a b m w h = absurd (h refl refl)

  finish-denied :
      (user : Option User) (password : String) (w : World)
      → ((u : User) → user ≡ some u → Admits password u → ⊥)
      → (finish_login env p user (p.compare password (hash_to_compare user)) w).0
        ≡ err invalid_credentials
  unfolding finish_login
  finish-denied none password w h = denied _ w
  finish-denied (some u) password w h =
      guards-denied (p.compare password u.password_hash) u.is_active _ _ (open_session env p u) w
        (λ e a. h u refl (a, e))

-- With nobody else at the database and no failing query, a login of a valid form ends in one and the
-- same error, 401 `Invalid email or password`, whether no user has the e-mail, the password does not
-- match or the user is inactive.
pub login-denied :
    (env : Env) (p : Platform) (email password : Value) (w : World)
    → IsQuiet env
    → validate_login email password ≡ []
    → ((u : User)
        → find (has_email p (normalized_email env p email)) w.db.users ≡ some u
        → Admits env p (text_of password) u
        → ⊥)
    → (login env p email password w).0 ≡ err invalid_credentials
unfolding login compare_password find_by_email
login-denied env p email password w q valid h =
    ap (λ (r : Result Session × World). r.0)
      (bind-ok _ _ w w tt (require_valid-ok _ _ w valid)
        ∙ bind-ok _ _ w (record w { ticks = suc w.ticks }) _ (query_quiet env q _ w)
        ∙ bind-ok _ _ (record w { ticks = suc w.ticks }) (record w { ticks = suc w.ticks }) _ refl)
    ∙ finish-denied env p _ (text_of password) (record w { ticks = suc w.ticks }) h
