-- ===== src/Runtime/Insert.antt =====
-- The constraints of the tables (src/database/migrations) as an INSERT meets them, and how a
-- statement with LIMIT and OFFSET reads its bounds.
use Prim.Native.Nat.{◌^◌}
use Prim.Native.String.{◌++◌}
use gov_flow.Prelude.{
  ℕ, zero, suc, String, Bool, true, false, not, List, [], ◌∷◌, Option, none, some, is_some, ltb,
  leb, if◌then◌else◌,
}
use gov_flow.Js.Text.{to_lower_case}
use gov_flow.Js.Value.{Value, str, Number, whole, pos}
use gov_flow.Errors.{Error, plain_error, database}
use gov_flow.Database.Table.{lookup}
use gov_flow.Runtime.{Result, err}

-- Errors of the database driver, with the code that PostgreSQL gives.
abbrev pub database_error : String → String → Option String → Error
database_error message code constraint = record (plain_error message) {
  class = database;
  code = some code;
  constraint = constraint;
}

abbrev pub unique_violation : String → Error
unique_violation constraint =
    database_error ("duplicate key value violates unique constraint " ++ constraint) "23505"
      (some constraint)

abbrev pub foreign_key_violation : String → Error
foreign_key_violation constraint =
    database_error ("violates foreign key constraint " ++ constraint) "23503" (some constraint)

abbrev pub invalid_bigint : Error
invalid_bigint = database_error "invalid input syntax for type bigint" "22P02" none

abbrev pub out_of_integer_range : Error
out_of_integer_range = database_error "integer out of range" "22003" none

abbrev pub value_too_long : Error
value_too_long = database_error "value too long for type character varying" "22001" none

-- The characters of a text, as PostgreSQL counts them
unfoldable pub character_length : String → ℕ
character_length String.[] = 0
character_length (String.◌∷◌ c s) = suc (character_length s)

-- A text fits a column of type VARCHAR(max). (Spaces at its end that are too many would be cut off;
-- the columns that are checked get texts that are trimmed or were measured with their spaces.)
abbrev pub fits : ℕ → String → Bool
fits max s = leb (character_length s) max

abbrev pub fits_value : ℕ → Value → Bool
fits_value max (str s) = fits max s
fits_value max v = true

-- A statement goes on if the constraint holds.
unfoldable pub check : {A : Type 0} → Bool → Error → Result A → Result A
check true e r = r
check false e r = err e

module _ {Row : Type 0} (key : Row → String) where
  -- No row has the key yet.
  abbrev pub is_new : String → List Row → Bool
  is_new id rows = not (is_some (lookup key (to_lower_case id) rows))

  -- A column that references the table: NULL, or the key of a row.
  abbrev pub refers : Option String → List Row → Bool
  refers none rows = true
  refers (some id) rows = is_some (lookup key (to_lower_case id) rows)

-- The number of a `bigint` that is not negative
abbrev pub bigint : Number → Option ℕ
bigint (whole (pos n)) = if ltb n (2 ^ 63) then some n else none
bigint n = none

-- `OFFSET n`
unfoldable pub skip {ℓ} : {A : Type ℓ} → ℕ → List A → List A
skip zero xs = xs
skip (suc n) [] = []
skip (suc n) (x ∷ xs) = skip n xs
