-- ===== src/Examples/Accounts.antt =====
-- The theorems on accounts, with a bcrypt that keeps passwords as they are.
use gov_flow.Prelude.{ℕ, ◌∷◌, ◌++◌, ◌≡◌, refl, none, [], true, ◌==◌, eq_refl, find}
use gov_flow.Js.Text.{to_lower_case, trim}
use gov_flow.Js.Value.{null, str, text_of}
use gov_flow.Validators.Users.{UserPayload, validate_login, validate_create_user}
use gov_flow.Runtime.{World, ok, err, await}
use gov_flow.Runtime.Ends.{Ends}
use gov_flow.Users.Platform.{Platform, IsBcrypt}
use gov_flow.Users.Repository.{public_user, has_email}
use gov_flow.Users.Creation.{create_user-returns}
use gov_flow.Database.{User}
use gov_flow.Database.Table.{lookup}
use gov_flow.Runtime.Insert.{character_length, fits, is_new}
use gov_flow.Workflows.Repository.{user_key}
use gov_flow.Users.Service.{normalized_email, create_user}
use gov_flow.Users.Login.{login, invalid_credentials}
use gov_flow.Users.Login.Uniform.{IsSessionOf, login-Admits, login-denied}
use gov_flow.Users.Login.Roundtrip.{LogsIn, create_user-login}
use gov_flow.Examples.World.{quiet, quiet-IsQuiet, pending_world, admin_id}

abbrev plain : Platform
plain = record {
  lower = to_lower_case;
  lower_sql = to_lower_case;
  name_before = λ a b. true;
  hash = λ n password. password;
  compare = λ password hash. password == hash;
  sign = λ n claims. claims.sub;
  verify = λ n token. none;
}

plain-IsBcrypt : IsBcrypt plain
plain-IsBcrypt = record { matches = λ n password. eq_refl password }

abbrev new_user : UserPayload
new_user = record {
  name = str "Ana";
  email = str "Ana@Gov.example";
  password = str "Secret-12345";
  role = str "MANAGER";
  department_id = null;
}

login-Admits_example :
    Ends
      (IsSessionOf quiet plain
        (find
          (has_email plain (normalized_email quiet plain new_user.email))
          (await quiet pending_world).db.users)
        "Secret-12345")
      (login quiet plain new_user.email new_user.password pending_world)
login-Admits_example = login-Admits quiet plain new_user.email new_user.password pending_world

valid_form : validate_login new_user.email new_user.password ≡ []
unfolding validate_login
valid_form = refl

login-denied_example :
    (login quiet plain new_user.email new_user.password pending_world).0 ≡ err invalid_credentials
login-denied_example =
    login-denied quiet plain new_user.email new_user.password pending_world quiet-IsQuiet valid_form
      (λ u found admitted. cc)

create_user-login_example :
    Ends
      (LogsIn quiet plain new_user.email new_user.password)
      (create_user quiet plain new_user (str admin_id) pending_world)
create_user-login_example =
    create_user-login quiet plain new_user (str admin_id) pending_world quiet-IsQuiet plain-IsBcrypt

valid_user : validate_create_user new_user ≡ []
unfolding validate_create_user
valid_user = refl

fresh_ids : (n : ℕ) → is_new user_key (quiet.uuid n 0) pending_world.db.users ≡ true
unfolding lookup
fresh_ids n = refl

fitting_email : fits 255 (normalized_email quiet plain new_user.email) ≡ true
unfolding character_length to_lower_case trim
fitting_email = refl

fitting_hash : (n : ℕ) → fits 255 (plain.hash n (text_of new_user.password)) ≡ true
unfolding character_length
fitting_hash n = refl

create_user-returns_example :
    (new : User) × (v : World) × (create_user quiet plain new_user (str admin_id) pending_world
      ≡ (ok (public_user new), v))
    × (v.db.users ≡ pending_world.db.users ++ new ∷ [])
    × (new.email ≡ normalized_email quiet plain new_user.email)
    × (new.name ≡ trim (text_of new_user.name))
    × ((n : ℕ) × (new.password_hash ≡ plain.hash n (text_of new_user.password)))
create_user-returns_example =
    create_user-returns quiet plain new_user (str admin_id) pending_world quiet-IsQuiet valid_user
      refl refl fresh_ids fitting_email fitting_hash
