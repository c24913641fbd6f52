-- ===== src/Users/Login.antt =====
-- src/modules/auth/auth.service.js and src/middlewares/auth.middleware.js
pub mod Uniform
pub mod Forms
pub mod Roundtrip
use Prim.Native.Char.{code}
use Prim.Native.String
use gov_flow.Prelude.{
  String, Bool, not, ◌&&◌, List, [], ◌∷◌, Option, none, some, ◌==◌, is_empty, same_number,
  if◌then◌else◌,
}
use gov_flow.Errors.{Error, app_error}
use gov_flow.Js.Text.{split_on, is_empty_text}
use gov_flow.Js.Value.{Value, null, str, obj, object, text_of}
use gov_flow.Database.{User, Role, role_text}
use gov_flow.AuditLogs.{safe_register_audit_log}
use gov_flow.Validators.AuditLogs.{AuditPayload}
use gov_flow.Validators.Users.{validate_login, validate_user_id}
use gov_flow.Runtime.{Env, M, pure, throw, ◌>>=◌, ◌>>◌, require, require_some, require_valid, query}
use gov_flow.Users.Platform.{
  Platform, Claims, dummy_password_hash, compare_password, sign_access_token, verify_access_token,
}
use gov_flow.Users.Repository.{PublicUser, public_user, find_by_email, find_user_by_id}
use gov_flow.Users.Service.{normalized_email}

abbrev pub invalid_credentials : Error
invalid_credentials = app_error "Invalid email or password" 401

pub record Session : Type 0 where
  pub user : PublicUser
  pub access_token : String

-- The password hash that the comparison runs on
abbrev pub hash_to_compare : Option User → String
hash_to_compare none = dummy_password_hash
hash_to_compare (some u) = u.password_hash

abbrev pub unknown_user_audit : AuditPayload
unknown_user_audit = record {
  action = str "LOGIN_FAILED";
  entity = str "auth";
  entity_id = null;
  actor_id = null;
  metadata = obj (object (("reason", str "USER_NOT_FOUND") ∷ []));
}

abbrev pub login_failed_audit : User → String → AuditPayload
login_failed_audit u reason = record {
  action = str "LOGIN_FAILED";
  entity = str "auth";
  entity_id = str u.id;
  actor_id = str u.id;
  metadata = obj (object (("reason", str reason) ∷ ("email", str u.email) ∷ []));
}

abbrev pub login_success_audit : User → AuditPayload
login_success_audit u = record {
  action = str "LOGIN_SUCCESS";
  entity = str "auth";
  entity_id = str u.id;
  actor_id = str u.id;
  metadata = obj (object (("email", str u.email) ∷ ("role", str (role_text u.role)) ∷ []));
}

-- `{ sub, email, role }` of `signAccessToken`
abbrev pub claims_of : User → Claims
claims_of u = record { sub = u.id; email = u.email; role = u.role }

-- `req.user`
pub record AuthenticatedUser : Type 0 where
  pub id : String
  pub name : String
  pub email : String
  pub role : Role
  pub department_id : Option String
  pub is_active : Bool

-- The token of `Bearer <token>`
abbrev pub bearer_token : List String → Option String
bearer_token (scheme ∷ token ∷ []) =
    if scheme == "Bearer" && not (is_empty_text token) then some token else none
bearer_token _ = none

module _ (env : Env) (p : Platform) where
  -- A failed login: its audit entry, and the one public error.
  unfoldable pub deny_login : AuditPayload → M Session
  deny_login audit = do safe_register_audit_log env audit; throw invalid_credentials

  unfoldable pub open_session : User → M Session
  open_session u = do
    token ← sign_access_token p (claims_of u)
    safe_register_audit_log env (login_success_audit u)
    pure (record { user = public_user u; access_token = token })

  -- `login` after the comparison of the passwords
  unfoldable pub finish_login : Option User → Bool → M Session
  unfolding deny_login open_session
  finish_login none matches = deny_login unknown_user_audit
  finish_login (some u) matches =
      if not matches
      then deny_login (login_failed_audit u "INVALID_PASSWORD")
      else if not u.is_active
      then deny_login (login_failed_audit u "USER_INACTIVE")
      else open_session u

  unfoldable pub login : (email password : Value) → M Session
  unfolding finish_login
  login email password = do
    require_valid "Validation failed" (validate_login email password)
    user ← query env (find_by_email p (normalized_email env p email))
    matches ← compare_password p (text_of password) (hash_to_compare user)
    finish_login user matches

  -- `authMiddleware`, on the Authorization header; an error goes to `next`.
  unfoldable pub auth_middleware : Option String → M AuthenticatedUser
  unfolding split_on
  auth_middleware header = do
    text ← require_some header (app_error "Authentication token is required" 401)
    require (not (is_empty_text text)) (app_error "Authentication token is required" 401)
    token ←
        require_some (bearer_token (split_on 32 text))
          (app_error "Invalid authentication token format" 401)
    decoded ← verify_access_token p token
    claims ← require_some decoded (app_error "Invalid or expired authentication token" 401)
    require (is_empty (validate_user_id claims.sub))
        (app_error "Invalid or expired authentication token" 401)
    row ← query env (find_user_by_id claims.sub)
    user ← require_some row (app_error "Authenticated user not found" 401)
    require user.is_active (app_error "User is inactive" 403)
    pure (record {
      id = user.id;
      name = user.name;
      email = user.email;
      role = user.role;
      department_id = user.department_id;
      is_active = user.is_active;
    })
