-- ===== src/Validators/Uuid/Strict.antt =====
-- How the regular expressions for a UUID relate.
use Prim.Native.Char.{Char}
use gov_flow.Prelude.{
  ℕ, zero, suc, String, Bool, true, false, ◌&&◌, ◌≡◌, refl, subst, sym, arith, ◌==◌, eq_iff, inl,
  inr, if◌then◌else◌, Bool-cases,
}
use Prim.Native.String.{[], ◌∷◌}
use gov_flow.Js.Text.{Shape, end, one, times, has_shape, is_hex, is_dash, is_digit}
use gov_flow.Validators.Uuid.{
  is_version, is_variant, uuid_shape, is_valid_uuid, is_versioned_uuid, nil_uuid, is_execution_uuid,
}

-- Class by class, the one shape asks for no more than the other.
abbrev Within : Shape → Shape → Type 0
Within end end = Unit {0}
Within (one p s) (one q t) = ((c : Char) → p c ≡ true → q c ≡ true) × Within s t
Within s t = ⊥

both : (a b : Bool) → (a && b) ≡ true → (a ≡ true) × (b ≡ true)
both true b h = (refl, h)
both false b h = cc

has_shape-Within :
    (s t : Shape) (x : String) → Within s t → has_shape s x ≡ true → has_shape t x ≡ true
unfolding has_shape
has_shape-Within end end x w h = h
has_shape-Within (one p s) (one q t) [] w h = h
has_shape-Within (one p s) (one q t) (c ∷ x) (class, w) h =
    let parts = both (p c) (has_shape s x) h in
    rw (class c parts.0) (has_shape-Within s t x w parts.1)
has_shape-Within end (one q t) x w h = absurd w
has_shape-Within (one p s) end x w h = absurd w

times-Within :
    (n : ℕ) (p : Char → Bool) (s t : Shape) → Within s t → Within (times n p s) (times n p t)
times-Within zero p s t w = w
times-Within (suc n) p s t w = ((λ c h. h), times-Within n p s t w)

is_version-hex : (c : Char) → is_version c ≡ true → is_hex c ≡ true
unfolding is_version is_hex is_digit
is_version-hex c h = ground arith

is_variant-hex : (c : Char) → is_variant c ≡ true → is_hex c ≡ true
unfolding is_variant is_hex is_digit
is_variant-hex c h = ground arith

abbrev node : Shape
node = one is_dash (times 12 is_hex end)

abbrev variant_part : (Char → Bool) → Shape
variant_part variant = one is_dash (one variant (times 3 is_hex node))

abbrev version_part : (Char → Bool) → (Char → Bool) → Shape
version_part version variant = one is_dash (one version (times 3 is_hex (variant_part variant)))

abbrev middle_part : (Char → Bool) → (Char → Bool) → Shape
middle_part version variant = one is_dash (times 4 is_hex (version_part version variant))

kept : (p : Char → Bool) (c : Char) → p c ≡ true → p c ≡ true
kept p c h = h

variant-Within : Within (variant_part is_variant) (variant_part is_hex)
variant-Within = (
  kept is_dash,
  (
    is_variant-hex,
    times-Within 3 is_hex node node (kept is_dash, times-Within 12 is_hex end end tt),
  ),
)

version-Within : Within (version_part is_version is_variant) (version_part is_hex is_hex)
version-Within = (
  kept is_dash,
  (
    is_version-hex,
    times-Within 3 is_hex (variant_part is_variant) (variant_part is_hex) variant-Within,
  ),
)

uuid_shape-Within : Within (uuid_shape is_version is_variant) (uuid_shape is_hex is_hex)
uuid_shape-Within =
    times-Within 8 is_hex (middle_part is_version is_variant) (middle_part is_hex is_hex) (
      kept is_dash,
      times-Within 4 is_hex (version_part is_version is_variant) (version_part is_hex is_hex)
          version-Within,
    )

-- Every text that the validator of executions takes for a UUID (one with a version and a variant,
-- or the nil UUID), the validator of steps takes for one too.
pub is_execution_uuid-is_valid_uuid :
    (s : String) → is_execution_uuid s ≡ true → is_valid_uuid s ≡ true
unfolding is_execution_uuid is_versioned_uuid is_valid_uuid
is_execution_uuid-is_valid_uuid s h = elim (Bool-cases (s == nil_uuid)) [
  | inl e ↦ subst (λ (x : String). is_valid_uuid x ≡ true) (sym ((eq_iff s nil_uuid).0 e)) refl
  | inr e ↦
      has_shape-Within (uuid_shape is_version is_variant) (uuid_shape is_hex is_hex) s
        uuid_shape-Within
        (subst (λ (b : Bool). (if b then true else is_versioned_uuid s) ≡ true) e h)
]
