-- ===== src/Users/Service.antt =====
-- src/modules/users/users.service.js
use gov_flow.Prelude.{String, not, [], ◌∷◌, ◌==◌, is_some, if◌then◌else◌}
use gov_flow.Errors.{Error, app_error}
use gov_flow.Js.Text.{trim, has_value}
use gov_flow.Js.Value.{Value, str, obj, object, nullable, text_of, text_column}
use gov_flow.Access.{or_null_column}
use gov_flow.Database.{Role, admin, manager, operator, role_text}
use gov_flow.AuditLogs.{safe_register_audit_log}
use gov_flow.Validators.AuditLogs.{AuditPayload}
use gov_flow.Validators.Users.{
  UserPayload, validate_create_user, validate_list_users_filters, validate_user_id,
}
use gov_flow.Workflows.Service.{active_filter, require_department}
use gov_flow.Paging.{Page, paging, list_page}
use gov_flow.Runtime.{
  Env, M, pure, throw, ◌>>=◌, ◌>>◌, try, require, require_some, require_valid, query, new_ids,
}
use gov_flow.Users.Platform.{Platform, hash_password}
use gov_flow.Users.Repository.{
  PublicUser, UserDetails, UserFilters, NewUser, user_rows, find_user_by_id, find_by_email,
  insert_user,
}

-- The arguments of `listUsers`
pub record ListUsers : Type 0 where
  pub page : Value
  pub limit : Value
  pub role : Value
  pub department_id : Value
  pub is_active : Value

-- `normalizedFilters`
abbrev pub user_filters_of : ListUsers → UserFilters
user_filters_of q = record {
  role = or_null_column (text_column q.role);
  department_id = or_null_column (text_column q.department_id);
  is_active = active_filter q.is_active;
}

-- The role that a text names, as after a passed check of it
abbrev pub role_of : String → Role
role_of s = if s == "ADMIN" then admin else if s == "MANAGER" then manager else operator

-- The handler of `createUser`
unfoldable pub create_user_error : Error → Error
create_user_error e =
    if has_value e.code "23505"
    then app_error "User with this email already exists" 409
    else if has_value e.code "23503"
    then app_error "Department not found" 404
    else e

-- The entry of `createUser` in the audit log
abbrev pub user_created_audit : PublicUser → Value → AuditPayload
user_created_audit created created_by = record {
  action = str "USER_CREATED";
  entity = str "user";
  entity_id = str created.id;
  actor_id = created_by;
  metadata = obj (
      object (
        ("email", str created.email)
        ∷ ("role", str (role_text created.role))
        ∷ ("departmentId", nullable created.department_id)
        ∷ []));
}

module _ (env : Env) where
  unfoldable pub list_users : ListUsers → M (Page UserDetails)
  unfolding paging
  list_users q = do
    require_valid "Validation failed"
        (validate_list_users_filters q.role q.department_id q.is_active)
    list_page env (user_rows (user_filters_of q)) (paging env q.page q.limit)

  unfoldable pub get_user_by_id : String → M UserDetails
  get_user_by_id id = do
    require_valid "Invalid user ID" (validate_user_id id)
    row ← query env (find_user_by_id id)
    require_some row (app_error "User not found" 404)

  -- The body of the `try` of `createUser`
  unfoldable pub insert_and_audit_user : NewUser → Value → M PublicUser
  insert_and_audit_user n created_by = do
    ids ← new_ids env
    created ← query env (insert_user (ids 0) n)
    safe_register_audit_log env (user_created_audit created created_by)
    pure created

  module _ (p : Platform) where
    -- `email.trim().toLowerCase()`
    abbrev pub normalized_email : Value → String
    normalized_email email = p.lower (trim (text_of email))

    unfoldable pub create_user : UserPayload → Value → M PublicUser
    unfolding trim insert_and_audit_user require_department create_user_error
    create_user u created_by = do
      require_valid "Validation failed" (validate_create_user u)
      existing ← query env (find_by_email p (normalized_email u.email))
      require (not (is_some existing)) (app_error "User with this email already exists" 409)
      require_department env (or_null_column (text_column u.department_id))
      hash ← hash_password p (text_of u.password)
      try
          (insert_and_audit_user
            (record {
              name = trim (text_of u.name);
              email = normalized_email u.email;
              password_hash = hash;
              role = role_of (text_of u.role);
              department_id = or_null_column (text_column u.department_id);
            })
            created_by)
          (λ error. throw (create_user_error error))
