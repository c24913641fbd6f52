-- ===== src/Users/Creation.antt =====
-- When `createUser` of src/modules/users/users.service.js succeeds, and what it leaves.
use gov_flow.Prelude.{
  ℕ, suc, String, Bool, true, false, ◌≡◌, refl, ◌∙◌, ap, [], ◌∷◌, ◌++◌, Option, none, some, find,
  ◌==◌, List, Bool-cases, inl, inr, arith, eq_iff, eq_refl,
}
use gov_flow.Js.Text.{trim}
use gov_flow.Js.Value.{Value, text_of, text_column}
use gov_flow.Access.{or_null_column}
use gov_flow.Database.{Db, User}
use gov_flow.AuditLogs.{safe_register_audit_log}
use gov_flow.Validators.AuditLogs.{AuditPayload}
use gov_flow.AuditLogs.Safe.{safe_register-ok}
use gov_flow.Validators.Users.{UserPayload, validate_create_user}
use gov_flow.Runtime.{Env, World, Result, ok, pure, require, settle, new_ids}
use gov_flow.Runtime.Insert.{check, fits, is_new, refers}
use gov_flow.Users.Columns.{created_name-fits}
use gov_flow.Runtime.Quiet.{IsQuiet, bind-ok, try-ok, query_quiet, require_valid-ok}
use gov_flow.Workflows.Repository.{department_key, user_key}
use gov_flow.Workflows.Service.{require_department}
use gov_flow.Users.Platform.{Platform, hash_password}
use gov_flow.Users.Repository.{
  PublicUser, NewUser, public_user, user_of, same_email, has_email, find_by_email, insert_user,
  insert_new_user,
}
use gov_flow.Users.Service.{
  normalized_email, role_of, insert_and_audit_user, create_user, user_created_audit,
}
use gov_flow.Users.Login.Roundtrip.{audit-Keeps}

find_cons-none :
    {A : Type 0} (test : A → Bool) (x : A) (xs : List A)
    → find test (x ∷ xs) ≡ none
    → (test x ≡ false) × (find test xs ≡ none)
find_cons-none test x xs h = by_test (test x) refl
  where
    by_test : (b : Bool) → test x ≡ b → (test x ≡ false) × (find test xs ≡ none)
    by_test true e = ground arith
    by_test false e = (e, ground arith)

distinct :
    (p : Platform) (email : String) (u : User)
    → has_email p email u ≡ false
    → same_email email u ≡ false
distinct p email u h = elim (Bool-cases (u.email == email)) [
  | inl a ↦ ground (arith, eq_iff u.email email, eq_refl (p.lower_sql email))
  | inr a ↦ a
]

-- An e-mail that nobody has in any case, nobody has as it is written.
find-exact :
    (p : Platform) (email : String) (us : List User)
    → find (has_email p email) us ≡ none
    → find (same_email email) us ≡ none
find-exact p email [] h = refl
find-exact p email (u ∷ us) h =
    let (other, rest) = find_cons-none (has_email p email) u us h in
    rw (distinct p email u other) (find-exact p email us rest)

insert_user-returns :
    (id : String) (n : NewUser) (now : ℕ) (d : Db)
    → fits 150 n.name ≡ true
    → fits 255 n.email ≡ true
    → fits 255 n.password_hash ≡ true
    → is_new user_key id d.users ≡ true
    → find (same_email n.email) d.users ≡ none
    → refers department_key n.department_id d.departments ≡ true
    → insert_user id n now d
      ≡ ok (public_user (user_of id n now), record d { users = d.users ++ user_of id n now ∷ [] })
unfolding insert_user insert_new_user check
insert_user-returns id n now d named mailed hashed fresh free known =
    rw (named, mailed, hashed, fresh, free, known) refl

module _ (env : Env) (p : Platform) (q : IsQuiet env) where
  department-returns :
      (o : Option String) (w : World)
      → refers department_key o w.db.departments ≡ true
      → (v : World) × (require_department env o w ≡ (ok tt, v)) × (v.db ≡ w.db)
  unfolding require_department pure require
  department-returns none w h = (w, refl, refl)
  department-returns (some id) w h = (
    record w { ticks = suc w.ticks },
    bind-ok _ _ w (record w { ticks = suc w.ticks }) true
        (query_quiet env q _ w ∙ ap (λ (b : Bool). (ok b, record w { ticks = suc w.ticks })) h),
    refl,
  )

  audit-returns :
      (a : AuditPayload) (w : World)
      → (v : World) × (safe_register_audit_log env a w ≡ (ok tt, v)) × (v.db.users ≡ w.db.users)
  audit-returns a w =
      ((safe_register_audit_log env a w).1, safe_register-ok env a w, (audit-Keeps env p q a).at w)

  insert-returns :
      (n : NewUser) (created_by : Value) (w : World)
      → fits 150 n.name ≡ true
      → fits 255 n.email ≡ true
      → fits 255 n.password_hash ≡ true
      → is_new user_key (env.uuid w.ticks 0) w.db.users ≡ true
      → find (same_email n.email) w.db.users ≡ none
      → refers department_key n.department_id w.db.departments ≡ true
      → (v : World) × (insert_and_audit_user env n created_by w
          ≡ (ok (public_user (user_of (env.uuid w.ticks 0) n (env.now w.ticks))), v))
        × (v.db.users ≡ w.db.users ++ user_of (env.uuid w.ticks 0) n (env.now w.ticks) ∷ [])
  unfolding insert_and_audit_user pure new_ids
  insert-returns n created_by w named mailed hashed fresh free known =
      let new = user_of (env.uuid w.ticks 0) n (env.now w.ticks) in
      let d1 : Db = record w.db { users = w.db.users ++ new ∷ [] } in
      let w1 : World = record w { ticks = suc w.ticks; db = d1 } in
      let last = audit-returns (user_created_audit (public_user new) created_by) w1 in
      (
        last.0,
        bind-ok _ _ w w _ refl
            ∙ bind-ok _ _ w w1 (public_user new) (
                query_quiet env q _ w
                ∙ ap
                    (λ (r : Result (PublicUser × Db)).
                      settle env r (record w { ticks = suc w.ticks }))
                    (insert_user-returns (env.uuid w.ticks 0) n (env.now w.ticks) w.db named mailed
                      hashed fresh free known))
            ∙ bind-ok _ _ w1 last.0 tt last.1,
        last.2,
      )

-- With nobody else at the database, no failing query and ids that are not in use: `createUser` of a
-- valid form whose e-mail no user has, in any case of its letters, and whose department, if it names
-- one, exists, returns a user, if the normalized e-mail and the hash have at most 255 characters;
-- the table of users has one more row at its end, which is that user's, with the normalized e-mail,
-- the trimmed name and a hash of the password.
pub create_user-returns :
    (env : Env) (p : Platform) (u : UserPayload) (created_by : Value) (w : World)
    → IsQuiet env
    → validate_create_user u ≡ []
    → find (has_email p (normalized_email env p u.email)) w.db.users ≡ none
    → refers department_key (or_null_column (text_column u.department_id)) w.db.departments ≡ true
    → ((n : ℕ) → is_new user_key (env.uuid n 0) w.db.users ≡ true)
    → fits 255 (normalized_email env p u.email) ≡ true
    → ((n : ℕ) → fits 255 (p.hash n (text_of u.password)) ≡ true)
    → (new : User) × (v : World) × (create_user env p u created_by w ≡ (ok (public_user new), v))
      × (v.db.users ≡ w.db.users ++ new ∷ [])
      × (new.email ≡ normalized_email env p u.email)
      × (new.name ≡ trim (text_of u.name))
      × ((n : ℕ) × (new.password_hash ≡ p.hash n (text_of u.password)))
unfolding create_user hash_password find_by_email require pure
create_user-returns env p u created_by w q valid free known fresh mailed hashed =
    let email = normalized_email env p u.email in
    let department = or_null_column (text_column u.department_id) in
    let w1 : World = record w { ticks = suc w.ticks } in
    let checked = department-returns env p q department w1 known in
    let w2 = checked.0 in
    let n : NewUser = record {
      name = trim (text_of u.name);
      email = email;
      password_hash = p.hash w2.ticks (text_of u.password);
      role = role_of (text_of u.role);
      department_id = department;
    } in
    let same = checked.2 in
    let inserted =
      insert-returns env p q n created_by w2 (created_name-fits u valid) mailed (hashed w2.ticks)
        (ap (λ (d : Db). is_new user_key (env.uuid w2.ticks 0) d.users) same ∙ fresh w2.ticks)
        (ap (λ (d : Db). find (same_email email) d.users) same ∙ find-exact p email w.db.users free)
        (ap (λ (d : Db). refers department_key department d.departments) same ∙ known) in
    (
      user_of (env.uuid w2.ticks 0) n (env.now w2.ticks),
      inserted.0,
      bind-ok _ _ w w tt (require_valid-ok _ _ w valid)
          ∙ bind-ok _ _ w w1 none
              (query_quiet env q _ w ∙ ap (λ (o : Option User). (ok o, w1)) free)
          ∙ bind-ok _ _ w1 w1 tt refl
          ∙ bind-ok _ _ w1 w2 tt checked.1
          ∙ bind-ok _ _ w2 w2 n.password_hash refl
          ∙ try-ok _ _ w2 inserted.0 _ inserted.1,
      inserted.2
          ∙ ap (λ (d : Db). d.users ++ user_of (env.uuid w2.ticks 0) n (env.now w2.ticks) ∷ [])
              same,
      refl,
      refl,
      (w2.ticks, refl),
    )
