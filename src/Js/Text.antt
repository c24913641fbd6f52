-- ===== src/Js/Text.antt =====
-- JavaScript strings as texts of Unicode scalar values: their length in UTF-16 units, `trim`, the
-- lower case of ASCII letters, and the character classes of the regular expressions.
use Prim.Native.Char.{Char, code}
use Prim.Native.String.{String, [], ◌∷◌, char_at}
use gov_flow.Prelude.{ℕ, zero, suc, ◌+◌, ◌-◌, Bool, true, false, ◌&&◌, ◌||◌, leb, ltb, same_number}
use gov_flow.Prelude.{◌/◌, ◌%◌, if◌then◌else◌}
use text.Mathlib.Text.{starts_with, ◌==◌}
use gov_flow.Prelude.{Option, none, some, List}

-- What `String.prototype.trim` takes away: white space and line ends.
pub is_space : ℕ → Bool
is_space c =
    leb 9 c && leb c 13
    || same_number c 32
    || same_number c 0xA0
    || same_number c 0x1680
    || leb 0x2000 c && leb c 0x200A
    || same_number c 0x2028
    || same_number c 0x2029
    || same_number c 0x202F
    || same_number c 0x205F
    || same_number c 0x3000
    || same_number c 0xFEFF

unfoldable pub is_blank : String → Bool
unfolding is_space
is_blank [] = true
is_blank (c ∷ s) = is_space (code c) && is_blank s

unfoldable pub trim_start : String → String
unfolding is_space
trim_start [] = []
trim_start (c ∷ s) = let rest = trim_start s in if is_space (code c) then rest else c ∷ s

unfoldable pub trim_end : String → String
unfolding is_blank
trim_end [] = []
trim_end (c ∷ s) = let rest = trim_end s in if is_blank (c ∷ s) then [] else c ∷ rest

-- `value.trim()`
unfoldable pub trim : String → String
unfolding trim_start trim_end
trim s = trim_end (trim_start s)

-- `value.length`: a character outside the basic plane counts as two units.
unfoldable pub length_utf16 : String → ℕ
length_utf16 [] = 0
length_utf16 (c ∷ s) = (if ltb (code c) 0x10000 then 1 else 2) + length_utf16 s

abbrev pub is_empty_text : String → Bool
is_empty_text [] = true
is_empty_text (c ∷ s) = false

unfoldable pub is_digit : Char → Bool
is_digit c = leb b'0' (code c) && leb (code c) b'9'

unfoldable pub is_upper : Char → Bool
is_upper c = leb b'A' (code c) && leb (code c) b'Z'

unfoldable pub is_lower : Char → Bool
is_lower c = leb b'a' (code c) && leb (code c) b'z'

unfoldable pub is_dash : Char → Bool
is_dash c = same_number (code c) b'-'

-- `[0-9a-f]` under the flag `i`
unfoldable pub is_hex : Char → Bool
unfolding is_digit
is_hex c =
    is_digit c || leb b'a' (code c) && leb (code c) b'f' || leb b'A' (code c) && leb (code c) b'F'

unfoldable pub lower_char : Char → Char
unfolding is_upper
lower_char c = if is_upper c then char_at "abcdefghijklmnopqrstuvwxyz" (code c - b'A') else c

unfoldable pub to_lower_case : String → String
unfolding lower_char
to_lower_case [] = []
to_lower_case (c ∷ s) = lower_char c ∷ to_lower_case s

-- `/^\d+$/`
unfoldable pub all_digits : String → Bool
unfolding is_digit
all_digits [] = true
all_digits (c ∷ s) = is_digit c && all_digits s

unfoldable pub is_numeric : String → Bool
unfolding all_digits
is_numeric [] = false
is_numeric (c ∷ s) = is_digit c && all_digits s

abbrev put_char : Char → List String → List String
put_char c List.[] = List.◌∷◌ (c ∷ []) List.[]
put_char c (List.◌∷◌ word words) = List.◌∷◌ (c ∷ word) words

-- `value.split(separator)`, for a separator of one character with that code
unfoldable pub split_on : ℕ → String → List String
split_on separator [] = List.◌∷◌ "" List.[]
split_on separator (c ∷ s) =
    let rest = split_on separator s in
    if same_number (code c) separator then List.◌∷◌ "" rest else put_char c rest

-- A row of character classes.
pub data Shape : Type 0 where
  end : Shape
  one : (Char → Bool) → Shape → Shape

-- `{n}` copies of a class, and then the rest
abbrev pub times : ℕ → (Char → Bool) → Shape → Shape
times zero p rest = rest
times (suc n) p rest = one p (times n p rest)

-- A text has the shape of a row of classes: `^class class …$`.
unfoldable pub has_shape : Shape → String → Bool
has_shape end [] = true
has_shape end (c ∷ s) = false
has_shape (one p shape) [] = false
has_shape (one p shape) (c ∷ s) = p c && has_shape shape s

-- `value.includes(part)`
unfoldable pub includes : String → String → Bool
includes part [] = is_empty_text part
includes part (c ∷ s) = let later = includes part s in starts_with (c ∷ s) part || later

-- The decimal digits of a number, in front of a text; a number has fewer digits than its fuel.
unfoldable pub decimal_from : ℕ → ℕ → String → String
decimal_from zero n rest = rest
decimal_from (suc fuel) n rest =
    let longer = decimal_from fuel (n / 10) (char_at "0123456789" (n % 10) ∷ rest) in
    if ltb n 10 then char_at "0123456789" n ∷ rest else longer

-- `${n}`
unfoldable pub decimal : ℕ → String
unfolding decimal_from
decimal n = decimal_from (suc n) n ""

-- `error.code === "text"` on a property that may be missing
abbrev pub has_value : Option String → String → Bool
has_value none t = false
has_value (some s) t = s == t

-- `value.trim()` on a text that may be missing
unfoldable pub trim_column : Option String → Option String
unfolding trim
trim_column none = none
trim_column (some s) = some (trim s)
