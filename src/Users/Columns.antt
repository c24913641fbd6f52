-- ===== src/Users/Columns.antt =====
-- The name of a user whose form passed its checks fits its column
-- (src/database/migrations/003_create_users.sql).
use gov_flow.Prelude.{append_empty, ◌≤◌, String, true, ◌≡◌, [], arith, Bool-cases, inl, inr}
use gov_flow.Js.Text.{length_utf16, is_blank, trim, trim_start, trim_end}
use gov_flow.Js.Value.{Value, undefined, null, str, text_of}
use gov_flow.Runtime.Insert.{character_length, fits}
use gov_flow.Validators.Common.{required_text}
use gov_flow.Validators.Users.{UserPayload, validate_user_name, validate_create_user}

-- A text has no more characters than UTF-16 units, and none more once it is trimmed.
character_length-utf16 : (s : String) → character_length s ≤ length_utf16 s
unfolding character_length length_utf16
character_length-utf16 String.[] = ground arith
character_length-utf16 (String.◌∷◌ c s) = ground (arith, character_length-utf16 s)

character_length-trim_start : (s : String) → character_length (trim_start s) ≤ character_length s
unfolding character_length trim_start
character_length-trim_start String.[] = ground arith
character_length-trim_start (String.◌∷◌ c s) = ground (arith, character_length-trim_start s)

character_length-trim_end : (s : String) → character_length (trim_end s) ≤ character_length s
unfolding character_length trim_end
character_length-trim_end String.[] = ground arith
character_length-trim_end (String.◌∷◌ c s) = elim (Bool-cases (is_blank (String.◌∷◌ c s))) [
  | inl e ↦ rw e (ground arith)
  | inr e ↦ rw e (ground (arith, character_length-trim_end s))
]

character_length-trim : (s : String) → character_length (trim s) ≤ length_utf16 s
unfolding trim
character_length-trim s = ground (
  arith,
  character_length-trim_end (trim_start s),
  character_length-trim_start s,
  character_length-utf16 s,
)

name-fits : (v : Value) → validate_user_name v ≡ [] → fits 150 (trim (text_of v)) ≡ true
unfolding validate_user_name required_text
name-fits undefined h = cc
name-fits null h = cc
name-fits (str s) h = ground (arith, character_length-trim s)
name-fits _ h = cc

pub created_name-fits :
    (u : UserPayload) → validate_create_user u ≡ [] → fits 150 (trim (text_of u.name)) ≡ true
unfolding validate_create_user
created_name-fits u h = name-fits u.name (append_empty (validate_user_name u.name) _ h).0
