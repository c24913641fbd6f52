-- ===== src/Validators/Common.antt =====
-- Checks that several validators make on one field, with the field's name, its label in the
-- messages and its bound.
use Prim.Native.String.{◌++◌}
use gov_flow.Prelude.{ℕ, String, Bool, List, [], ◌∷◌, ltb, if◌then◌else◌}
use gov_flow.Errors.{FieldError}
use gov_flow.Js.Text.{trim, length_utf16, is_empty_text}
use gov_flow.Js.Value.{Value, undefined, null, str, obj}

abbrev pub field_error : String → String → List FieldError
field_error field message = record { field = field; message = message } ∷ []

-- The messages of a length bound write the number out.
unfoldable pub required_text : String → String → ℕ → String → Value → List FieldError
required_text field label max max_text undefined = field_error field (label ++ " is required")
required_text field label max max_text null = field_error field (label ++ " is required")
required_text field label max max_text (str s) =
    if is_empty_text (trim s)
    then field_error field (label ++ " cannot be empty")
    else if ltb max (length_utf16 s)
    then field_error field (label ++ (" must be at most " ++ (max_text ++ " characters")))
    else []
required_text field label max max_text v = field_error field (label ++ " must be a string")

unfoldable pub optional_text : String → String → ℕ → String → Value → List FieldError
optional_text field label max max_text undefined = []
optional_text field label max max_text null = []
optional_text field label max max_text (str s) =
    if ltb max (length_utf16 s)
    then field_error field (label ++ (" must be at most " ++ (max_text ++ " characters")))
    else []
optional_text field label max max_text v = field_error field (label ++ " must be a string")

unfoldable pub optional_object : String → String → Value → List FieldError
optional_object field label undefined = []
optional_object field label null = []
optional_object field label (obj fs) = []
optional_object field label v = field_error field (label ++ " must be an object")

unfoldable pub required_uuid : (String → Bool) → String → String → Value → List FieldError
required_uuid valid field label undefined = field_error field (label ++ " is required")
required_uuid valid field label null = field_error field (label ++ " is required")
required_uuid valid field label (str s) =
    if valid s then [] else field_error field (label ++ " must be a valid UUID")
required_uuid valid field label v = field_error field (label ++ " must be a string")

-- An empty text counts as no value.
unfoldable pub optional_uuid : (String → Bool) → String → String → Value → List FieldError
optional_uuid valid field label undefined = []
optional_uuid valid field label null = []
optional_uuid valid field label (str s) =
    if is_empty_text s
    then []
    else if valid s
    then []
    else field_error field (label ++ " must be a valid UUID")
optional_uuid valid field label v = field_error field (label ++ " must be a string")

-- `validateOptionalString`
unfoldable pub optional_filter : String → String → ℕ → String → Value → List FieldError
unfolding trim length_utf16
optional_filter field label max max_text undefined = []
optional_filter field label max max_text null = []
optional_filter field label max max_text (str s) =
    if is_empty_text s
    then []
    else if is_empty_text (trim s)
    then field_error field (label ++ " cannot be empty")
    else if ltb max (length_utf16 s)
    then field_error field (label ++ (" must be at most " ++ (max_text ++ " characters")))
    else []
optional_filter field label max max_text v = field_error field (label ++ " must be a string")

abbrev pub date_error : String → String → List FieldError
date_error field label = field_error field (label ++ " must be a valid date")
