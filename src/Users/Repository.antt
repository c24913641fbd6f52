-- ===== src/Users/Repository.antt =====
-- src/modules/users/users.repository.js
use gov_flow.Prelude.{
  ℕ, String, Bool, true, ◌&&◌, not, List, [], ◌∷◌, ◌++◌, map, Option, none, some, ◌==◌, leb, find,
  select, is_some,
}
use gov_flow.Database.{Db, User, Role, role_text}
use gov_flow.Executions.Repository.{sort_by}
use gov_flow.Workflows.Repository.{
  find_user, user_key, department_key, department_name_of, column_is, flag_is, lower_column,
}
use gov_flow.Runtime.{Result, ok}
use gov_flow.Runtime.Insert.{
  check, fits, is_new, refers, value_too_long, unique_violation, foreign_key_violation,
}
use gov_flow.Users.Platform.{Platform}

-- A user without the password hash: the columns that the queries return, but for `find_by_email`.
pub record PublicUser : Type 0 where
  pub id : String
  pub name : String
  pub email : String
  pub role : Role
  pub department_id : Option String
  pub is_active : Bool
  pub created_at : ℕ

abbrev pub public_user : User → PublicUser
public_user u = record {
  id = u.id;
  name = u.name;
  email = u.email;
  role = u.role;
  department_id = u.department_id;
  is_active = u.is_active;
  created_at = u.created_at;
}

-- A user with the column that the query joins.
pub record UserDetails : Type 0 where
  pub user : PublicUser
  pub open user use *
  pub department_name : Option String

abbrev pub with_department : Db → User → UserDetails
with_department d u = record {
  user = public_user u;
  department_name = department_name_of d u.department_id;
}

pub record UserFilters : Type 0 where
  pub role : Option String
  pub department_id : Option String
  pub is_active : Option Bool

-- `users.role = $n` where the filter has a value
abbrev pub role_is : Role → Option String → Bool
role_is r none = true
role_is r (some text) = role_text r == text

-- The WHERE clause of `buildUsersFiltersQuery`
abbrev pub user_matches : UserFilters → User → Bool
user_matches f u =
    role_is u.role f.role
    && column_is u.department_id f.department_id
    && flag_is u.is_active f.is_active

-- `ORDER BY created_at DESC`
abbrev pub newer_user : User → User → Bool
newer_user u v = leb v.created_at u.created_at

-- The rows of `findAll` and `countAll` without LIMIT and OFFSET
unfoldable pub user_rows : UserFilters → Db → List UserDetails
unfolding sort_by
user_rows f d = map (with_department d) (sort_by newer_user (select (user_matches f) d.users))

unfoldable pub find_user_by_id : String → ℕ → Db → Result (Option UserDetails × Db)
find_user_by_id id now d =
    ok ((elim (find_user id d) [ none ↦ none | some u ↦ some (with_department d u) ]), d)

-- `LOWER(email) = LOWER($1)`
abbrev pub has_email : Platform → String → User → Bool
has_email p email u = p.lower_sql u.email == p.lower_sql email

unfoldable pub find_by_email : Platform → String → ℕ → Db → Result (Option User × Db)
find_by_email p email now d = ok (find (has_email p email) d.users, d)

-- What an INSERT INTO users gives.
pub record NewUser : Type 0 where
  pub name : String
  pub email : String
  pub password_hash : String
  pub role : Role
  pub department_id : Option String

abbrev pub user_of : String → NewUser → ℕ → User
user_of id n now = record {
  id = id;
  name = n.name;
  email = n.email;
  password_hash = n.password_hash;
  role = n.role;
  department_id = lower_column n.department_id;
  is_active = true;
  created_at = now;
}

-- The column is UNIQUE as it is written.
abbrev pub same_email : String → User → Bool
same_email email u = u.email == email

-- The constraints of the table, once the texts fit their columns
unfoldable pub insert_new_user : String → NewUser → ℕ → Db → Result (PublicUser × Db)
insert_new_user id n now d = check (is_new user_key id d.users) (unique_violation "users_pkey") (
    check (not (is_some (find (same_email n.email) d.users))) (unique_violation "users_email_key") (
      check (refers department_key n.department_id d.departments)
        (foreign_key_violation "users_department_id_fkey")
        (ok
          (public_user (user_of id n now), record d { users = d.users ++ user_of id n now ∷ [] }))))

-- `create`
unfoldable pub insert_user : String → NewUser → ℕ → Db → Result (PublicUser × Db)
unfolding insert_new_user
insert_user id n now d =
    check (fits 150 n.name && fits 255 n.email && fits 255 n.password_hash) value_too_long
      (insert_new_user id n now d)
