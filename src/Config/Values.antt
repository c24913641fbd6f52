-- ===== src/Config/Values.antt =====
-- How src/config/env.js reads one variable. A variable that is not set is `none`.
use Prim.Native.String.{◌++◌}
use gov_flow.Prelude.{
  ℕ, String, Bool, true, false, not, ◌&&◌, ◌||◌, List, map, Option, none, some, ltb, select, ◌==◌,
  if◌then◌else◌,
}
use gov_flow.Js.Text.{trim, is_empty_text, length_utf16, split_on}
use gov_flow.Js.Number.{to_number}
use gov_flow.Js.Value.{undefined, str, Number, whole, above, pos, is_at_most_zero}
use gov_flow.Errors.{Error, plain_error}
use gov_flow.Runtime.{Result, ok, err}

-- `process.env`, after the file .env has been read
abbrev pub Variables : Type 0
Variables = String → Option String

-- A statement that may throw, and what follows it
infixl 5 ◌>>=◌ ◌>>◌
abbrev pub ◌>>=◌ : {A B : Type 0} → Result A → (A → Result B) → Result B
ok a >>= f = f a
err e >>= f = err e

abbrev pub ◌>>◌ : {A B : Type 0} → Result A → Result B → Result B
m >> k = m >>= λ _. k

-- `value === undefined || value === null || value.trim() === ""`
abbrev pub is_missing : Option String → Bool
is_missing none = true
is_missing (some s) = is_empty_text (trim s)

abbrev pub present : Option String → Error → Result String
present none e = err e
present (some s) e = if is_empty_text (trim s) then err e else ok s

unfoldable pub require_env : Variables → String → Result String
unfolding trim
require_env vars name =
    present (vars name) (plain_error ("Missing required environment variable: " ++ name))

abbrev pub min_secret_length : ℕ
min_secret_length = 32

abbrev pub too_weak : String → Error
too_weak name = plain_error (
    "Environment variable "
    ++ (name
        ++ (" is too weak: it must be at least 32 characters. "
            ++ "Generate a strong value with: openssl rand -base64 48")))

unfoldable pub strong : String → String → Result String
unfolding trim length_utf16
strong name value =
    if ltb (length_utf16 (trim value)) min_secret_length then err (too_weak name) else ok value

unfoldable pub require_strong_secret : Variables → String → Result String
unfolding require_env strong
require_strong_secret vars name = do value ← require_env vars name; strong name value

-- `parseList`, with the code of the comma
unfoldable pub parse_list : Option String → List String → List String
unfolding trim split_on
parse_list none fallback = fallback
parse_list (some value) fallback =
    if is_empty_text (trim value)
    then fallback
    else select (λ item. not (is_empty_text item)) (map trim (split_on 44 value))

-- `Number(value)` of a variable; `parse` reads a text that is no run of decimal digits.
unfoldable pub number_of : (String → Number) → Option String → Number
unfolding to_number
number_of parse none = to_number parse (λ v. "") undefined
number_of parse (some s) = to_number parse (λ v. "") (str s)

-- `Number.isFinite(n)`
abbrev pub is_finite : Number → Bool
is_finite (whole n) = true
is_finite (above n) = true
is_finite n = false

unfoldable pub positive_or : Number → Number → Number
positive_or n fallback = if not (is_finite n) || is_at_most_zero n then fallback else n

unfoldable pub parse_positive_number : (String → Number) → Option String → Number → Number
unfolding positive_or number_of
parse_positive_number parse value fallback = positive_or (number_of parse value) fallback

-- `Number.isInteger(n) && !(n < 0)`
abbrev pub is_natural : Number → Bool
is_natural (whole (pos n)) = true
is_natural n = false

unfoldable pub parse_trust_proxy_hops : (String → Number) → Option String → Number → Number
unfolding number_of trim
parse_trust_proxy_hops parse value fallback =
    if is_missing value
    then fallback
    else if is_natural (number_of parse value)
    then number_of parse value
    else fallback

-- `value || fallback` for a text
abbrev pub or_text : Option String → String → String
or_text none fallback = fallback
or_text (some s) fallback = if is_empty_text s then fallback else s

abbrev pub is_node_env : String → Bool
is_node_env s = s == "development" || s == "test" || s == "production"

unfoldable pub resolve_node_env : Variables → Result String
resolve_node_env vars =
    let node_env = or_text (vars "NODE_ENV") "production" in
    if is_node_env node_env
    then ok node_env
    else err (
        plain_error (
          "Invalid NODE_ENV \""
          ++ (node_env ++ "\". Must be one of: development, test, production")))

unfoldable pub resolve_redis_password : Variables → String → Result (Option String)
unfolding trim
resolve_redis_password vars node_env =
    let password = vars "REDIS_PASSWORD" in
    if node_env == "production" && is_missing password
    then err (plain_error "Missing required environment variable in production: REDIS_PASSWORD")
    else ok (if is_missing password then none else password)

-- `value === "true"`
abbrev pub is_on : Option String → Bool
is_on none = false
is_on (some s) = s == "true"

unfoldable pub require_jira_variables : Variables → Result (Unit {0})
unfolding require_env
require_jira_variables vars = do
  require_env vars "JIRA_BASE_URL"
  require_env vars "JIRA_EMAIL"
  require_env vars "JIRA_API_TOKEN"
  ok tt

unfoldable pub validate_jira_config : Variables → Result (Unit {0})
unfolding require_jira_variables
validate_jira_config vars =
    if is_on (vars "JIRA_ENABLED") then require_jira_variables vars else ok tt
