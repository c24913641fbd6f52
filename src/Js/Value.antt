-- ===== src/Js/Value.antt =====
-- Dynamic values: what a request body, job data or a JSONB column can hold.
use Prim.Native.String.{String}
use gov_flow.Prelude.{ℕ, Bool, true, false, not, List, Option, none, some}
use gov_flow.Prelude.{ltb, leb, same_number, ◌==◌, if◌then◌else◌}
use gov_flow.Js.Text.{is_empty_text}
use mathlib.Core.List.{[], ◌∷◌}

-- `negsuc n` is -(n + 1).
pub data ℤ : Type 0 where
  pos : ℕ → ℤ
  negsuc : ℕ → ℤ

-- A number of JavaScript as far as the sources can tell numbers apart: a whole number, a fraction
-- strictly between a whole number and the next, an infinity, or NaN.
pub data Number : Type 0 where
  whole : ℤ → Number
  above : ℤ → Number
  infinity : Number
  minus_infinity : Number
  not_a_number : Number

mutual
  pub data Value : Type 0 where
    undefined : Value
    null : Value
    bool : Bool → Value
    num : Number → Value
    str : String → Value
    arr : Items → Value
    obj : Fields → Value

  pub data Items : Type 0 where
    nil : Items
    cons : Value → Items → Items

  pub data Fields : Type 0 where
    empty : Fields
    field : String → Value → Fields → Fields

abbrev pub items : List Value → Items
items [] = nil
items (v ∷ vs) = cons v (items vs)

-- `value === undefined || value === null`
abbrev pub is_nullish : Value → Bool
is_nullish undefined = true
is_nullish null = true
is_nullish v = false

-- `a ?? b`
abbrev pub coalesce : Value → Value → Value
coalesce undefined b = b
coalesce null b = b
coalesce a b = a

-- `Number.isInteger(value)` and a comparison with a bound
abbrev pub is_integer : Number → Bool
is_integer (whole n) = true
is_integer n = false

-- `n <= 0`
abbrev pub is_at_most_zero : Number → Bool
is_at_most_zero (whole (pos n)) = same_number n 0
is_at_most_zero (whole (negsuc n)) = true
is_at_most_zero (above (pos n)) = false
is_at_most_zero (above (negsuc n)) = true
is_at_most_zero infinity = false
is_at_most_zero minus_infinity = true
is_at_most_zero not_a_number = false

-- `n > max`
abbrev pub exceeds : Number → ℕ → Bool
exceeds (whole (pos n)) max = ltb max n
exceeds (above (pos n)) max = leb max n
exceeds infinity max = true
exceeds n max = false

-- `Boolean(value)`
abbrev pub truthy : Value → Bool
truthy undefined = false
truthy null = false
truthy (bool b) = b
truthy (num (whole (pos n))) = not (same_number n 0)
truthy (num not_a_number) = false
truthy (num n) = true
truthy (str s) = not (is_empty_text s)
truthy v = true

-- `value === "text"`
abbrev pub is_text : Value → String → Bool
is_text (str s) t = s == t
is_text v t = false

-- `value === true`
abbrev pub is_true : Value → Bool
is_true (bool b) = b
is_true v = false

-- The text of a value that is one, as after a passed check of its type.
abbrev pub text_of : Value → String
text_of (str s) = s
text_of v = ""

-- The last field of a name is the one that counts, as in an object literal.
abbrev pub last_field : String → Fields → Option Value
last_field k empty = none
last_field k (field j v fs) = elim (last_field k fs) [
  | some w ↦ some w
  | none ↦ if j == k then some v else none
]

-- `value.key`, undefined on a missing key and, with `?.`, on undefined and null.
abbrev pub get : String → Value → Value
get k (obj fs) = elim (last_field k fs) [ some v ↦ v | none ↦ undefined ]
get k v = undefined

abbrev pub append_fields : Fields → Fields → Fields
append_fields empty gs = gs
append_fields (field k v fs) gs = field k v (append_fields fs gs)

-- `...value` in an object literal
abbrev pub spread : Value → Fields
spread (obj fs) = fs
spread v = empty

-- An object literal.
abbrev pub object : List (String × Value) → Fields
object [] = empty
object ((k, v) ∷ rest) = field k v (object rest)

-- A count or a time, as a JavaScript number
abbrev pub nat : ℕ → Value
nat n = num (whole (pos n))

-- A column that may be NULL
abbrev pub nullable : Option String → Value
nullable none = null
nullable (some s) = str s

-- `a || b`
abbrev pub or_value : Value → Value → Value
or_value a b = if truthy a then a else b

-- A text, or NULL for a value that is none, as after a passed check of an optional text
abbrev pub text_column : Value → Option String
text_column (str s) = some s
text_column v = none

-- The number of a value that is a positive whole one, as after a passed check of it.
abbrev pub nat_of : Value → ℕ
nat_of (num (whole (pos n))) = n
nat_of v = 0
