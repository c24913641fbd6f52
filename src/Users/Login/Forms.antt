-- ===== src/Users/Login/Forms.antt =====
-- The e-mail and the password of a created user as the login checks them.
use gov_flow.Prelude.{append_empty, String, true, false, ◌≡◌, refl, [], arith, ltb}
use gov_flow.Js.Text.{length_utf16, is_empty_text}
use gov_flow.Js.Value.{Value, undefined, null, str}
use gov_flow.Validators.Users.{
  UserPayload, validate_create_user, validate_login, validate_email, validate_password,
  validate_login_password, validate_user_name,
}

unbounded_email : (v : Value) → validate_email true v ≡ [] → validate_email false v ≡ []
unfolding validate_email
unbounded_email undefined h = cc
unbounded_email null h = cc
unbounded_email (str s) h = ground arith
unbounded_email _ h = cc

some_length : (s : String) → ltb (length_utf16 s) 12 ≡ false → is_empty_text s ≡ false
unfolding length_utf16
some_length String.[] h = cc
some_length (String.◌∷◌ c s) h = refl

login_password : (v : Value) → validate_password v ≡ [] → validate_login_password v ≡ []
unfolding validate_password validate_login_password
login_password undefined h = cc
login_password null h = cc
login_password (str s) h = ground (arith, some_length s)
login_password _ h = cc

-- The form that creates a user passes the checks of the login.
pub created-IsLogin :
    (u : UserPayload) → validate_create_user u ≡ [] → validate_login u.email u.password ≡ []
unfolding validate_create_user validate_login
created-IsLogin u h =
    let rest = append_empty (validate_user_name u.name) _ h in
    let later = append_empty (validate_email true u.email) _ rest.1 in
    let last = append_empty (validate_password u.password) _ later.1 in
    rw (unbounded_email u.email later.0) (login_password u.password last.0)
