-- ===== src/Js/Number.antt =====
-- Numbers of JavaScript in the arithmetic of paging: `Number(value)`, `||`, `Math.max`, `Math.min`.
use Prim.Native.Char.{code}
use Prim.Native.Nat.{max, min}
use gov_flow.Prelude.{ℕ, ◌+◌, ◌-◌, ◌*◌, String, leb, same_number, ◌/◌, if◌then◌else◌}
use gov_flow.Js.Text.{trim, is_empty_text, is_numeric}
use gov_flow.Js.Value.{
  Value, undefined, null, bool, num, str, Number, whole, above, infinity, minus_infinity,
  not_a_number, pos, negsuc,
}

-- The number that a run of decimal digits stands for, after the digits read so far.
unfoldable pub digits_value : ℕ → String → ℕ
digits_value n String.[] = n
digits_value n (String.◌∷◌ c s) = digits_value (n * 10 + (code c - b'0')) s

-- `Number(value)`; `parse` reads a text that is no run of digits, and of a value that is no
-- primitive its text.
unfoldable pub to_number : (String → Number) → (Value → String) → Value → Number
unfolding trim is_numeric digits_value
to_number parse to_text undefined = not_a_number
to_number parse to_text null = whole (pos 0)
to_number parse to_text (bool b) = whole (pos (if b then 1 else 0))
to_number parse to_text (num n) = n
to_number parse to_text (str s) =
    if is_empty_text (trim s)
    then whole (pos 0)
    else if is_numeric (trim s)
    then whole (pos (digits_value 0 (trim s)))
    else parse (trim s)
to_number parse to_text v = parse (to_text v)

-- `n || d`
abbrev pub or_number : Number → ℕ → Number
or_number (whole (pos n)) d = if same_number n 0 then whole (pos d) else whole (pos n)
or_number not_a_number d = whole (pos d)
or_number n d = n

-- `Math.max(n, 1)`, where n is not NaN
abbrev pub at_least_one : Number → Number
at_least_one (whole (pos n)) = whole (pos (max n 1))
at_least_one (whole (negsuc n)) = whole (pos 1)
at_least_one (above (pos n)) = if same_number n 0 then whole (pos 1) else above (pos n)
at_least_one (above (negsuc n)) = whole (pos 1)
at_least_one minus_infinity = whole (pos 1)
at_least_one n = n

-- `Math.min(n, bound)`, where n is at least 1
abbrev pub at_most : ℕ → Number → Number
at_most bound (whole (pos n)) = whole (pos (min n bound))
at_most bound (above (pos n)) = if leb bound n then whole (pos bound) else above (pos n)
at_most bound infinity = whole (pos bound)
at_most bound n = n

-- `n - 1`, where n is at least 1
abbrev pub before : Number → Number
before (whole (pos n)) = whole (pos (n - 1))
before (above (pos n)) = above (pos (n - 1))
before n = n

-- `a * b`
abbrev pub times : (Number → Number → Number) → Number → Number → Number
times product (whole (pos a)) (whole (pos b)) = whole (pos (a * b))
times product a b = product a b

-- `Math.ceil(total / limit)`, where the limit is a positive whole number
unfoldable pub ceil_div : ℕ → ℕ → ℕ
ceil_div total limit = (total + (limit - 1)) / limit
