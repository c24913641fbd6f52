-- ===== src/Validators/Uuid.antt =====
-- The two regular expressions for a UUID: src/validators/workflowSteps.validator.js accepts any
-- hexadecimal digits, the others ask for a version and a variant.
pub mod Strict
use Prim.Native.Char.{Char, code}
use gov_flow.Prelude.{String, Bool, true, ◌&&◌, ◌||◌, ◌==◌, leb, if◌then◌else◌}
use gov_flow.Js.Text.{Shape, end, one, times, has_shape, is_hex, is_dash}

-- `[1-5]`
unfoldable pub is_version : Char → Bool
is_version c = leb b'1' (code c) && leb (code c) b'5'

-- `[89ab]` under the flag `i`
unfoldable pub is_variant : Char → Bool
is_variant c =
    leb b'8' (code c) && leb (code c) b'9'
    || leb b'a' (code c) && leb (code c) b'b'
    || leb b'A' (code c) && leb (code c) b'B'

-- `^[0-9a-f]{8}-…{4}-X[0-9a-f]{3}-Y[0-9a-f]{3}-[0-9a-f]{12}$`
abbrev pub uuid_shape : (Char → Bool) → (Char → Bool) → Shape
uuid_shape version variant = times 8 is_hex (
    one is_dash (
      times 4 is_hex (
        one is_dash (
          one version (
            times 3 is_hex
              (one is_dash (one variant (times 3 is_hex (one is_dash (times 12 is_hex end))))))))))

unfoldable pub is_valid_uuid : String → Bool
unfolding has_shape is_hex is_dash
is_valid_uuid s = has_shape (uuid_shape is_hex is_hex) s

unfoldable pub is_versioned_uuid : String → Bool
unfolding has_shape is_hex is_dash is_version is_variant
is_versioned_uuid s = has_shape (uuid_shape is_version is_variant) s

abbrev pub nil_uuid : String
nil_uuid = "00000000-0000-0000-0000-000000000000"

-- `isValidUuid` of src/validators/workflowExecutions.validator.js
unfoldable pub is_execution_uuid : String → Bool
unfolding is_versioned_uuid
is_execution_uuid s = if s == nil_uuid then true else is_versioned_uuid s
