-- ===== src/Users/Platform.antt =====
-- What accounts use of bcrypt, jsonwebtoken, the case mapping of texts and the database's collation
-- (src/utils/password.js, src/utils/jwt.js).
use gov_flow.Prelude.{ℕ, String, Bool, true, ◌≡◌, Option}
use gov_flow.Database.{Role}
use gov_flow.Runtime.{M, ok}

-- What an access token says of its user.
pub record Claims : Type 0 where
  pub sub : String
  pub email : String
  pub role : Role

pub record Platform : Type 0 where
  -- `value.toLowerCase()`
  pub lower : String → String
  -- `LOWER(column)`
  pub lower_sql : String → String
  -- `a` is not after `b` in an `ORDER BY name ASC`
  pub name_before : String → String → Bool
  -- `bcrypt.hash`, with the salt of its n-th call, and `bcrypt.compare`
  pub hash : ℕ → String → String
  pub compare : String → String → Bool
  -- `jwt.sign` and `jwt.verify` under the settings of the application, at a time
  pub sign : ℕ → Claims → String
  pub verify : ℕ → String → Option Claims

-- A password matches the hashes that bcrypt makes of it.
pub record IsBcrypt (p : Platform) : Type 0 where
  pub matches : (n : ℕ) (password : String) → p.compare password (p.hash n password) ≡ true

abbrev pub dummy_password_hash : String
dummy_password_hash = "$2b$10$yR3vd3IYvdpDYO7NbnIr5OePdWnsRUkWtNxi29kN21DWxmeFatQ1K"

module _ (p : Platform) where
  unfoldable pub hash_password : String → M String
  hash_password password w = (ok (p.hash w.ticks password), w)

  unfoldable pub compare_password : String → String → M Bool
  compare_password password hash w = (ok (p.compare password hash), w)

  unfoldable pub sign_access_token : Claims → M String
  sign_access_token claims w = (ok (p.sign w.ticks claims), w)

  unfoldable pub verify_access_token : String → M (Option Claims)
  verify_access_token token w = (ok (p.verify w.ticks token), w)
