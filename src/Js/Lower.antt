-- ===== src/Js/Lower.antt =====
-- The lower case of a text is a text in lower case.
use Prim.Native.Char.{Char, code}
use Prim.Native.String.{String, [], ◌∷◌, char_at}
use gov_flow.Prelude.{
  ℕ, zero, suc, ◌-◌, ◌<◌, ◌≡◌, refl, Bool, true, false, ◌&&◌, not, arith, inl, inr, Bool-cases,
}
use gov_flow.Js.Text.{is_upper, lower_char, to_lower_case}

all_below : ℕ → (ℕ → Bool) → Bool
all_below zero p = true
all_below (suc n) p = p n && all_below n p

all_below_sound : (n : ℕ) (p : ℕ → Bool) (k : ℕ) → all_below n p ≡ true → k < n → p k ≡ true
unfolding all_below
all_below_sound zero p k h l = absurd (omega arith)
all_below_sound (suc n) p k h l = ground (arith, all_below_sound n p k)

abbrev letter : ℕ → Char
letter k = char_at "abcdefghijklmnopqrstuvwxyz" k

letters_lower : all_below 26 (λ k. not (is_upper (letter k))) ≡ true
unfolding all_below is_upper
letters_lower = refl

not-true : (b : Bool) → not b ≡ true → b ≡ false
not-true b h = ground arith

letter_lower : (c : Char) → is_upper c ≡ true → is_upper (letter (code c - b'A')) ≡ false
letter_lower c h =
    not-true _ (
      all_below_sound 26 (λ k. not (is_upper (letter k))) (code c - b'A') letters_lower (small c h))
  where
    small : (c : Char) → is_upper c ≡ true → code c - b'A' < 26
    small c h = unfold is_upper in ground arith

lower_char_lower : (c : Char) → lower_char (lower_char c) ≡ lower_char c
unfolding lower_char
lower_char_lower c = elim (Bool-cases (is_upper c)) [
  | inl e ↦ rw e (rw (letter_lower c e) refl)
  | inr e ↦ rw e (rw e refl)
]

pub to_lower_case_lower : (s : String) → to_lower_case (to_lower_case s) ≡ to_lower_case s
unfolding to_lower_case
to_lower_case_lower [] = refl
to_lower_case_lower (c ∷ s) = λ i. lower_char_lower c i ∷ to_lower_case_lower s i
