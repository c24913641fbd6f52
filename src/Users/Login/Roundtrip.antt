-- ===== src/Users/Login/Roundtrip.antt =====
-- A user that was created can log in.
use gov_flow.Prelude.{
  find-append, ℕ, suc, String, Bool, true, not, ◌≡◌, refl, sym, ◌∙◌, ap, [], ◌∷◌, ◌++◌, Option,
  none, some, is_some, find, if◌then◌else◌, eq_refl,
}
use gov_flow.Js.Value.{Value, text_of}
use gov_flow.Database.{Db, User}
use gov_flow.AuditLogs.{insert_entry, register, safe_register_audit_log}
use gov_flow.AuditLogs.Safe.{safe_register-ok}
use gov_flow.Validators.AuditLogs.{AuditPayload}
use gov_flow.Validators.Users.{UserPayload, validate_create_user, validate_login}
use gov_flow.Runtime.{Env, World, M, ok, pure, await}
use gov_flow.Runtime.Keeps.{
  Keeps, IsRely, Keeps-try, Keeps-bind, Keeps-require_valid, Keeps-query, Keeps-pure, Keeps-require,
}
use gov_flow.Runtime.Ends.{Ends, Ends-bind, Ends-query, Ends-weaken, ok-db, ok-value}
use gov_flow.Runtime.Atomic.{
  check-ok, Ends-new_ids, Ends-require, Ends-require_valid, Ends-try-throw, Ends-at,
}
use gov_flow.Workflows.Service.{require_department}
use gov_flow.Runtime.Quiet.{IsQuiet, bind-ok, query_quiet, require_valid-ok}
use gov_flow.Users.Platform.{Platform, IsBcrypt, compare_password, hash_password, sign_access_token}
use gov_flow.Users.Repository.{
  PublicUser, NewUser, public_user, user_of, insert_user, has_email, find_by_email,
}
use gov_flow.Users.Service.{normalized_email, create_user, create_user_error, insert_and_audit_user}
use gov_flow.Users.Login.{
  finish_login, login, open_session, deny_login, claims_of, login_success_audit, login_failed_audit,
}
use gov_flow.Users.Login.Forms.{created-IsLogin}

-- The users are the same.
abbrev pub SameUsers : Db → Db → Type 0
SameUsers a b = b.users ≡ a.users

module _ (env : Env) (p : Platform) (q : IsQuiet env) where
  rely : IsRely env SameUsers
  rely = record {
    same = λ d. refl;
    chain = λ a b c e f. f ∙ e;
    others = λ n d. ap (λ (x : Db). x.users) (q.alone n d);
    meanwhile = λ n d. ap (λ (x : Db). x.users) (q.serial n d);
  }

  pub audit-Keeps : (a : AuditPayload) → Keeps SameUsers (safe_register_audit_log env a)
  unfolding safe_register_audit_log register insert_entry
  audit-Keeps a =
      Keeps-try rely _ _
        (Keeps-bind rely _ _
          (Keeps-bind rely _ _ (Keeps-require_valid rely _ _) (λ x.
            Keeps-query rely _ (λ n d d' y e.
              sym (ap (λ (x : Db). x.users) (ok-db _ y _ d' (check-ok _ _ _ _ e).1)))))
          (λ x. Keeps-pure rely tt))
        (λ e. Keeps-pure rely tt)

  department-Keeps : (o : Option String) → Keeps SameUsers (require_department env o)
  unfolding require_department
  department-Keeps none = Keeps-pure rely tt
  department-Keeps (some id) =
      Keeps-bind rely _ _
        (Keeps-query rely _ (λ n d d' y e. sym (ap (λ (x : Db). x.users) (ok-db _ y d d' e))))
        (λ found. Keeps-require rely found _)

insert_user-ok :
    (id : String) (new : NewUser) (n : ℕ) (d d' : Db) (x : PublicUser)
    → insert_user id new n d ≡ ok (x, d')
    → (x ≡ public_user (user_of id new n))
      × (d' ≡ record d { users = d.users ++ user_of id new n ∷ [] })
unfolding insert_user
insert_user-ok id new n d d' x e =
    let fitting = (check-ok _ _ _ _ e).1 in
    let inserted = (check-ok _ _ _ _ (check-ok _ _ _ _ (check-ok _ _ _ _ fitting).1).1).1 in
    let d2 : Db = record d { users = d.users ++ user_of id new n ∷ [] } in
    (
      sym (ok-value (public_user (user_of id new n)) x d2 d' inserted),
      sym (ok-db (public_user (user_of id new n)) x d2 d' inserted),
    )

Ends-same :
    {A : Type 0} (Q : World → Type 0) (m : M A) (w : World)
    → Keeps SameUsers m
    → ((u : World) → SameUsers w.db u.db → Q u)
    → Ends (λ a u. Q u) (m w)
Ends-same Q m w k h = Ends-at Q (m w).0 (m w).1 (h (m w).1 (k.at w))

-- A login returns a session of the user.
abbrev pub LogsIn : Env → Platform → (email password : Value) → PublicUser → World → Type 0
LogsIn env p email password x w =
    (token : String) × (v : World) × (login env p email password w
      ≡ (ok (record { user = x; access_token = token }), v))

module _ (env : Env) (p : Platform) (q : IsQuiet env) where
  -- No user has the e-mail, and the row of one with it that a search finds.
  abbrev IsFree : String → World → Type 0
  IsFree email v = find (has_email p email) v.db.users ≡ none

  abbrev IsFound : String → String → PublicUser → World → Type 0
  IsFound email password x v =
      (r : User) × (k : ℕ) × (find (has_email p email) v.db.users ≡ some r)
      × (x ≡ public_user r)
      × (r.is_active ≡ true)
      × (r.password_hash ≡ p.hash k password)

  kept : (email : String) (v u : World) → SameUsers v.db u.db → IsFree email v → IsFree email u
  kept email v u same h = ap (find (has_email p email)) same ∙ h

  insert-IsFound :
      (n : NewUser) (created_by : Value) (password : String) (k : ℕ) (w : World)
      → n.password_hash ≡ p.hash k password
      → IsFree n.email w
      → Ends (IsFound n.email password) (insert_and_audit_user env n created_by w)
  unfolding insert_and_audit_user pure await
  insert-IsFound n created_by password k w made h =
      Ends-bind (λ ids v. IsFree n.email v) _ _ _ w (Ends-new_ids env _ w h)
        (λ ids v free.
          Ends-bind (IsFound n.email password) _ _ _ v
            (Ends-query env _ _ v (λ time x u e.
              let new = insert_user-ok (ids 0) n time (await env v).db u.db x e in
              (
                user_of (ids 0) n time,
                k,
                ap (λ (d : Db). find (has_email p n.email) d.users) new.1
                    ∙ find-append (has_email p n.email) (await env v).db.users
                        (user_of (ids 0) n time)
                        (ap (λ (d : Db). find (has_email p n.email) d.users) (q.alone v.ticks v.db)
                          ∙ free)
                        (eq_refl (p.lower_sql n.email)),
                new.0,
                refl,
                made,
              )))
            (λ x v1 found.
              Ends-bind (λ y v2. IsFound n.email password x v2) _ _ _ v1
                (Ends-same (IsFound n.email password x) _ v1 (audit-Keeps env p q _)
                  (λ u same. audited x v1 u found same))
                (λ y v2 h2. h2)))
    where
      audited :
          (x : PublicUser) (v u : World)
          → IsFound n.email password x v
          → SameUsers v.db u.db
          → IsFound n.email password x u
      audited x v u (r, j, f, a, b, c) same =
          (r, j, ap (find (has_email p n.email)) same ∙ f, a, b, c)

  abbrev IsUsable : UserPayload → PublicUser → World → Type 0
  IsUsable u x v =
      (validate_create_user u ≡ [])
      × IsFound (normalized_email env p u.email) (text_of u.password) x v

  create_user-IsFound :
      (u : UserPayload) (created_by : Value) (w : World)
      → Ends (IsUsable u) (create_user env p u created_by w)
  unfolding create_user hash_password find_by_email
  create_user-IsFound u created_by w =
      let email = normalized_email env p u.email in
      Ends-bind (λ x v. validate_create_user u ≡ []) _ _ _ w (Ends-require_valid _ _ _ w (λ e. e))
        (λ x v valid.
          Ends-bind (λ row v1. row ≡ find (has_email p email) v1.db.users) _ _ _ v
            (Ends-query env _ _ v (λ n row v1 e.
              sym (ok-value _ row (await env v).db v1.db e)
              ∙ ap (λ (d : Db). find (has_email p email) d.users)
                  (ok-db _ row (await env v).db v1.db e)))
            (λ row v1 found.
              Ends-bind (λ y v2. IsFree email v2) _ _ _ v1
                (Ends-require _ _ _ v1 (λ b. sym found ∙ unused row b))
                (λ y v2 free.
                  Ends-bind (λ z v3. IsFree email v3) _ _ _ v2
                    (Ends-same (IsFree email) _ v2 (department-Keeps env p q _)
                      (λ s same. kept email v2 s same free))
                    (λ z v3 free3.
                      Ends-bind
                        (λ hash v4.
                          IsFree email v4 × (k : ℕ) × (hash ≡ p.hash k (text_of u.password)))
                        _ _ _ v3 (free3, v3.ticks, refl)
                        (λ hash v4 (free4, k, made).
                          Ends-weaken (IsFound email (text_of u.password)) _ _
                            (Ends-try-throw _ _ create_user_error v4
                              (insert-IsFound _ created_by (text_of u.password) k v4 made free4))
                            (λ x v5 h. (valid, h)))))))
    where
      unused : (row : Option User) → not (is_some row) ≡ true → row ≡ none
      unused none b = refl
      unused (some r) b = cc

  open_quiet :
      (u : User) (w : World)
      → (token : String) × (v : World) × (open_session env p u w
          ≡ (ok (record { user = public_user u; access_token = token }), v))
  unfolding open_session sign_access_token pure
  open_quiet u w = (
    p.sign w.ticks (claims_of u),
    (safe_register_audit_log env (login_success_audit u) w).1,
    bind-ok _ _ w w _ refl ∙ bind-ok _ _ w _ tt (safe_register-ok env (login_success_audit u) w),
  )

  login-IsFound :
      (email password : Value) (x : PublicUser) (w : World)
      → IsBcrypt p
      → validate_login email password ≡ []
      → IsFound (normalized_email env p email) (text_of password) x w
      → LogsIn env p email password x w
  unfolding login compare_password find_by_email finish_login
  login-IsFound email password x w bcrypt valid (r, k, found, same, active, made) =
      let w1 : World = record w { ticks = suc w.ticks } in
      let opened = open_quiet r w1 in
      let matches : p.compare (text_of password) r.password_hash ≡ true =
        ap (p.compare (text_of password)) made ∙ bcrypt.matches k (text_of password) in
      (
        opened.0,
        opened.1,
        bind-ok _ _ w w tt (require_valid-ok _ _ w valid)
            ∙ bind-ok _ _ w w1 (some r)
                (query_quiet env q _ w ∙ ap (λ (o : Option User). (ok o, w1)) found)
            ∙ bind-ok _ _ w1 w1 true (ap (λ (b : Bool). (ok b, w1)) matches)
            ∙ ap
                (λ (b : Bool).
                  (if not b
                      then deny_login env p (login_failed_audit r "USER_INACTIVE")
                      else open_session env p r)
                    w1)
                active
            ∙ opened.2
            ∙ ap (λ (y : PublicUser). (ok (record { user = y; access_token = opened.0 }), opened.1))
                (sym same),
      )

-- With nobody else at the database and no failing query, and a bcrypt whose hashes match the
-- password that they are made of: if `createUser` returns a user, then a login with the same e-mail
-- and password right after it returns a session of that very user.
pub create_user-login :
    (env : Env) (p : Platform) (u : UserPayload) (created_by : Value) (w : World)
    → IsQuiet env
    → IsBcrypt p
    → Ends (LogsIn env p u.email u.password) (create_user env p u created_by w)
create_user-login env p u created_by w q bcrypt =
    Ends-weaken (IsUsable env p q u) (LogsIn env p u.email u.password) _
      (create_user-IsFound env p q u created_by w)
      (λ x v (valid, found).
        login-IsFound env p q u.email u.password x v bcrypt (created-IsLogin u valid) found)
