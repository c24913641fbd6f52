-- ===== src/Validators/Users.antt =====
-- src/validators/users.validator.js, src/validators/departments.validator.js and
-- src/validators/auth.validator.js
use Prim.Native.Char.{Char, code}
use Prim.Native.String
use gov_flow.Prelude.{
  ℕ, ◌+◌, String, Bool, true, false, not, ◌&&◌, ◌||◌, List, [], ◌++◌, ltb, same_number, ◌==◌,
  if◌then◌else◌,
}
use gov_flow.Errors.{FieldError}
use gov_flow.Js.Text.{is_space, trim, length_utf16, is_empty_text, is_digit, is_upper, is_lower}
use gov_flow.Js.Value.{Value, undefined, null, str}
use gov_flow.Validators.Common.{field_error, required_text, optional_text, optional_uuid}
use gov_flow.Validators.Uuid.{is_valid_uuid}
use gov_flow.Validators.Workflows.{optional_boolean_string}

-- Some character of a text is in a class.
unfoldable pub some_char : (Char → Bool) → String → Bool
some_char p String.[] = false
some_char p (String.◌∷◌ c s) = p c || some_char p s

-- `[^\s@]`
abbrev pub is_mail_char : Char → Bool
is_mail_char c = not (is_space (code c)) && not (same_number (code c) b'@')

-- `^[^\s@]+$`
unfoldable pub all_mail : String → Bool
all_mail String.[] = true
all_mail (String.◌∷◌ c s) = is_mail_char c && all_mail s

-- `[^\s@]*\.[^\s@]+$` after one character of the class
unfoldable pub has_dot_tail : String → Bool
unfolding all_mail
has_dot_tail String.[] = false
has_dot_tail (String.◌∷◌ c s) =
    let later = has_dot_tail s in
    (same_number (code c) b'.' && not (is_empty_text s) && all_mail s) || (is_mail_char c && later)

-- `[^\s@]+\.[^\s@]+$`
unfoldable pub is_domain : String → Bool
unfolding has_dot_tail
is_domain String.[] = false
is_domain (String.◌∷◌ c s) = is_mail_char c && has_dot_tail s

-- `[^\s@]*@[^\s@]+\.[^\s@]+$`
unfoldable pub has_at : String → Bool
unfolding is_domain
has_at String.[] = false
has_at (String.◌∷◌ c s) =
    let later = has_at s in (same_number (code c) b'@' && is_domain s) || (is_mail_char c && later)

-- `/^[^\s@]+@[^\s@]+\.[^\s@]+$/`
unfoldable pub is_email : String → Bool
unfolding has_at
is_email String.[] = false
is_email (String.◌∷◌ c s) = is_mail_char c && has_at s

-- `Buffer.byteLength(value, "utf8")`
unfoldable pub byte_length : String → ℕ
byte_length String.[] = 0
byte_length (String.◌∷◌ c s) =
    (if ltb (code c) 0x80
      then 1
      else if ltb (code c) 0x800
      then 2
      else if ltb (code c) 0x10000
      then 3
      else 4)
    + byte_length s

unfoldable pub validate_user_name : Value → List FieldError
unfolding required_text
validate_user_name name = required_text "name" "Name" 150 "150" name

-- `validateEmail`; that of the login has no bound.
unfoldable pub validate_email : (bounded : Bool) → Value → List FieldError
unfolding trim length_utf16 is_email
validate_email bounded undefined = field_error "email" "Email is required"
validate_email bounded null = field_error "email" "Email is required"
validate_email bounded (str s) =
    if is_empty_text (trim s)
    then field_error "email" "Email cannot be empty"
    else if bounded && ltb 255 (length_utf16 (trim s))
    then field_error "email" "Email must be at most 255 characters"
    else if is_email (trim s)
    then []
    else field_error "email" "Email must be valid"
validate_email bounded v = field_error "email" "Email must be a string"

-- `[^A-Za-z0-9]`
abbrev pub is_special : Char → Bool
is_special c = not (is_upper c) && not (is_lower c) && not (is_digit c)

unfoldable pub is_mixed : String → Bool
unfolding some_char is_upper is_lower is_digit
is_mixed s =
    some_char is_upper s && some_char is_lower s && some_char is_digit s && some_char is_special s

unfoldable pub validate_password : Value → List FieldError
unfolding length_utf16 byte_length is_mixed
validate_password undefined = field_error "password" "Password is required"
validate_password null = field_error "password" "Password is required"
validate_password (str s) =
    if ltb (length_utf16 s) 12
    then field_error "password" "Password must be at least 12 characters"
    else if ltb 72 (byte_length s)
    then field_error "password" "Password must be at most 72 bytes"
    else if is_mixed s
    then []
    else field_error "password" (
        String.◌++◌ "Password must contain at least one uppercase letter, "
          "one lowercase letter, one number and one special character")
validate_password v = field_error "password" "Password must be a string"

unfoldable pub is_role : String → Bool
is_role s = s == "ADMIN" || s == "MANAGER" || s == "OPERATOR"

unfoldable pub validate_role : Value → List FieldError
unfolding is_role
validate_role undefined = field_error "role" "Role is required"
validate_role null = field_error "role" "Role is required"
validate_role (str s) =
    if is_role s then [] else field_error "role" "Role must be one of: ADMIN, MANAGER, OPERATOR"
validate_role v = field_error "role" "Role must be a string"

unfoldable pub validate_optional_role : Value → List FieldError
unfolding validate_role
validate_optional_role undefined = []
validate_optional_role null = []
validate_optional_role (str s) = if is_empty_text s then [] else validate_role (str s)
validate_optional_role v = validate_role v

pub record UserPayload : Type 0 where
  pub name : Value
  pub email : Value
  pub password : Value
  pub role : Value
  pub department_id : Value

unfoldable pub validate_create_user : UserPayload → List FieldError
unfolding validate_user_name validate_email validate_password validate_role optional_uuid
validate_create_user p =
    validate_user_name p.name
    ++ (validate_email true p.email
        ++ (validate_password p.password
            ++ (validate_role p.role
                ++ optional_uuid is_valid_uuid "departmentId" "Department ID" p.department_id)))

unfoldable pub validate_list_users_filters : Value → Value → Value → List FieldError
unfolding validate_optional_role optional_uuid optional_boolean_string
validate_list_users_filters role department_id is_active =
    validate_optional_role role
    ++ (optional_uuid is_valid_uuid "departmentId" "Department ID" department_id
        ++ optional_boolean_string "isActive" is_active)

unfoldable pub validate_user_id : String → List FieldError
validate_user_id id = if is_valid_uuid id then [] else field_error "id" "Id must be a valid UUID"

-- `validateCreateDepartment`
unfoldable pub validate_create_department : Value → Value → List FieldError
unfolding required_text optional_text
validate_create_department name description =
    required_text "name" "Name" 100 "100" name
    ++ optional_text "description" "Description" 500 "500" description

unfoldable pub validate_list_departments_filters : Value → List FieldError
unfolding optional_boolean_string
validate_list_departments_filters is_active = optional_boolean_string "isActive" is_active

unfoldable pub validate_department_id : String → List FieldError
validate_department_id id =
    if is_valid_uuid id then [] else field_error "id" "Id must be a valid UUID"

-- `validatePassword` of the login
unfoldable pub validate_login_password : Value → List FieldError
validate_login_password undefined = field_error "password" "Password is required"
validate_login_password null = field_error "password" "Password is required"
validate_login_password (str s) =
    if is_empty_text s then field_error "password" "Password cannot be empty" else []
validate_login_password v = field_error "password" "Password must be a string"

unfoldable pub validate_login : Value → Value → List FieldError
unfolding validate_email validate_login_password
validate_login email password = validate_email false email ++ validate_login_password password
