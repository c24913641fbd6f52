-- ===== src/Errors/Response/Hidden.antt =====
-- What the error middleware keeps from the client.
use gov_flow.Prelude.{
  ℕ, ◌≤◌, ◌<◌, String, Bool, true, false, ◌≡◌, refl, ◌⊎◌, Bool-cases, inl, inr, ◌==◌, ◌&&◌,
  if◌then◌else◌, ap, ◌∙◌, arith, [], ◌∷◌,
}
use gov_flow.Js.Value.{Value, bool, str, obj, object, nat, num, whole, pos, is_true, or_value}
use gov_flow.Errors.Response.{
  Thrown, Reply, is_operational_error, is_client_safe, or_default, is_client_status,
  is_exposable_http_client_error, error_response, error_middleware,
}

-- The response that tells nothing
abbrev pub internal_error : Reply
internal_error = record {
  status = nat 500;
  body = obj (object (("success", bool false) ∷ ("message", str "Internal server error") ∷ []));
}

-- An error of an HTTP library that is marked to be exposed, with a status from 400 to 499, which is
-- that of the reply.
abbrev pub IsExposed : Thrown → Reply → Type 0
IsExposed e reply =
    (e.expose ≡ bool true)
    × ((n : ℕ) × (e.status_code ≡ nat n) × (400 ≤ n) × (n < 500) × (reply.status ≡ nat n))

is_true-bool : (v : Value) → is_true v ≡ true → v ≡ bool true
is_true-bool (bool true) h = refl
is_true-bool v h = ground arith

and_both : (a b : Bool) → (a && b) ≡ true → (a ≡ true) × (b ≡ true)
and_both a b h = ground arith

client_status-bounds :
    (v : Value) → is_client_status v ≡ true → (n : ℕ) × (v ≡ nat n) × (400 ≤ n) × (n < 500)
client_status-bounds (num (whole (pos n))) h = (n, refl, ground arith, ground arith)
client_status-bounds v h = ground arith

exposed_status : (n : ℕ) → 400 ≤ n → or_default (or_value (nat n) (nat 500)) (nat 500) ≡ nat n
exposed_status n h = ap (λ (v : Value). or_default v (nat 500)) (kept n h)
  where
    kept : (m : ℕ) → 400 ≤ m → or_value (nat m) (nat 500) ≡ nat m
    kept m e = ground arith

-- Outside of development, whatever is thrown: the client gets one and the same response, status 500
-- and the message `Internal server error`, whatever status, message, list of errors and stack the
-- error carries; or the error is marked as operational; or it is marked to be exposed and has a
-- status from 400 to 499, which is the status of the response.
pub error_middleware-hides :
    (node_env : String) (e : Thrown)
    → (node_env == "development") ≡ false
    → (error_middleware node_env e ≡ internal_error)
      ⊎ (e.is_operational ≡ bool true)
      ⊎ IsExposed e (error_middleware node_env e)
unfolding error_middleware error_response
error_middleware-hides node_env e outside = elim (Bool-cases (is_operational_error e)) [
  | inl a ↦ inr (inl (is_true-bool e.is_operational a))
  | inr a ↦ elim (Bool-cases (is_exposable_http_client_error e)) [
    | inl b ↦ inr (inr (exposed a b))
    | inr b ↦ inl (rw (outside, a, b) refl)
  ]
]
  where
    safe_of :
        is_operational_error e ≡ false
        → is_exposable_http_client_error e ≡ true
        → is_client_safe e ≡ true
    safe_of a b = rw (a, b) refl

    exposed :
        is_operational_error e ≡ false
        → is_exposable_http_client_error e ≡ true
        → IsExposed e (error_middleware node_env e)
    exposed a b =
        let (marked, client) = and_both (is_true e.expose) (is_client_status e.status_code) b in
        let (n, same, low, high) = client_status-bounds e.status_code client in
        (
          is_true-bool e.expose marked,
          (
            n,
            same,
            low,
            high,
            ap
                  (λ (safe : Bool).
                    or_default (if safe then or_value e.status_code (nat 500) else nat 500)
                      (nat 500))
                  (safe_of a b)
                ∙ ap (λ (v : Value). or_default (or_value v (nat 500)) (nat 500)) same
                ∙ exposed_status n low,
          ),
        )
