-- ===== src/Jira/Failures/Classes.antt =====
-- Which failures of Jira are final and which are tried again.
use gov_flow.Prelude.{
  ℕ, ◌≤◌, ◌<◌, String, ◌≡◌, refl, ◌≢◌, ◌⊎◌, inl, inr, Bool, true, false, Option, none, some, arith,
  Bool-cases, ◌||◌, ◌&&◌, leb, ltb,
}
use gov_flow.Js.Value.{Value}
use gov_flow.Errors.{Error, jira_business_error}
use gov_flow.Runtime.{HttpFailure}
use gov_flow.Jira.Failures.{
  business_message, is_retryable_4xx, has_code, normalize_unmapped, normalize_jira_error,
}

-- Jira turned the request down for good: a status from 400 to 499 that is one of the four that
-- have a message of their own, or that is neither 408 nor 429 and comes with no error code.
abbrev pub IsFinalStatus : HttpFailure → ℕ → Type 0
IsFinalStatus f s =
    (s ≡ 400)
    ⊎ (s ≡ 401)
    ⊎ (s ≡ 403)
    ⊎ (s ≡ 404)
    ⊎ ((400 ≤ s) × (s < 500) × (s ≢ 408) × (s ≢ 429) × (has_code f ≡ false))

abbrev pub IsRejection : HttpFailure → Option (ℕ × Value) → Type 0
IsRejection f none = ⊥
IsRejection f (some (s, body)) = IsFinalStatus f s

abbrev pub status_of : Option (ℕ × Value) → Option ℕ
status_of none = none
status_of (some (s, body)) = some s

pub record IsBusiness (status : Option ℕ) (e : Error) : Type 0 where
  pub not_retried : e.is_retryable ≡ false
  pub business : e.is_business_failure ≡ true
  pub shown : e.is_operational ≡ true
  pub same_status : e.status_code ≡ status

pub record IsTechnical (e : Error) : Type 0 where
  pub retried : e.is_retryable ≡ true
  pub not_business : e.is_business_failure ≡ false
  pub hidden : e.is_operational ≡ false
  pub no_status : e.status_code ≡ none

mapped-status :
    (s : ℕ) (operation : String) (m : String)
    → business_message s operation ≡ some m
    → (s ≡ 400) ⊎ (s ≡ 401) ⊎ (s ≡ 403) ⊎ (s ≡ 404)
unfolding business_message
mapped-status s operation m h = ground arith

unmapped-status :
    (s : ℕ) (operation : String)
    → business_message s operation ≡ none
    → (s ≢ 400) × (s ≢ 401) × (s ≢ 403) × (s ≢ 404)
unfolding business_message
unmapped-status s operation h = ground arith

abbrev stays : HttpFailure → ℕ → Bool
stays f s = is_retryable_4xx s || leb 500 s || has_code f

abbrev in_4xx : ℕ → Bool
in_4xx s = leb 400 s && ltb s 500

final-status :
    (f : HttpFailure) (s : ℕ) (operation : String)
    → business_message s operation ≡ none
    → IsFinalStatus f s
    → (stays f s ≡ false) × (in_4xx s ≡ true)
unfolding is_retryable_4xx
final-status f s operation h p = let u = unmapped-status s operation h in ground arith

status-final : (f : HttpFailure) (s : ℕ) → stays f s ≡ false → in_4xx s ≡ true → IsFinalStatus f s
unfolding is_retryable_4xx
status-final f s p r =
    inr (inr (inr (inr (ground arith, ground arith, ground arith, ground arith, ground arith))))

unmapped-class :
    (f : HttpFailure) (s : ℕ) (operation : String)
    → business_message s operation ≡ none
    → (IsFinalStatus f s × IsBusiness (some s) (normalize_unmapped f s operation))
      ⊎ ((¬ IsFinalStatus f s) × IsTechnical (normalize_unmapped f s operation))
unfolding normalize_unmapped
unmapped-class f s operation h = elim (Bool-cases (stays f s)) [
  | inl a ↦ inr (
    (λ p. cc (a, (final-status f s operation h p).0)),
    rw a (record { retried = refl; not_business = refl; hidden = refl; no_status = refl }),
  )
  | inr a ↦ elim (Bool-cases (in_4xx s)) [
    | inl b ↦ inl (
      status-final f s a b,
      rw a
          (rw b (record { not_retried = refl; business = refl; shown = refl; same_status = refl })),
    )
    | inr b ↦ inr (
      (λ p. cc (b, (final-status f s operation h p).1)),
      rw a (rw b (record { retried = refl; not_business = refl; hidden = refl; no_status = refl })),
    )
  ]
]

mapped-final :
    (f : HttpFailure) (s : ℕ) → (s ≡ 400) ⊎ (s ≡ 401) ⊎ (s ≡ 403) ⊎ (s ≡ 404) → IsFinalStatus f s
mapped-final f s h = ground arith

two_classes :
    (f : HttpFailure) (operation : String)
    → (IsRejection f f.response
        × IsBusiness (status_of f.response) (normalize_jira_error f operation))
      ⊎ ((¬ IsRejection f f.response) × IsTechnical (normalize_jira_error f operation))
unfolding normalize_jira_error has_code
two_classes f operation = by_response f.response refl
  where
    by_message :
        (s : ℕ) (body : Value) (o : Option String)
        → business_message s operation ≡ o
        → (IsFinalStatus f s
            × IsBusiness (some s) (elim o [
              | some message ↦ jira_business_error message s
              | none ↦ normalize_unmapped f s operation
            ]))
          ⊎ ((¬ IsFinalStatus f s)
              × IsTechnical (elim o [
                | some message ↦ jira_business_error message s
                | none ↦ normalize_unmapped f s operation
              ]))
    by_message s body none e = unmapped-class f s operation e
    by_message s body (some m) e = inl (
      mapped-final f s (mapped-status s operation m e),
      record { not_retried = refl; business = refl; shown = refl; same_status = refl },
    )

    by_response :
        (r : Option (ℕ × Value))
        → f.response ≡ r
        → (IsRejection f f.response
            × IsBusiness (status_of f.response) (normalize_jira_error f operation))
          ⊎ ((¬ IsRejection f f.response) × IsTechnical (normalize_jira_error f operation))
    by_response none e =
        rw (e, normalize_jira_error)
          (inr (
            (λ p. p),
            record { retried = refl; not_business = refl; hidden = refl; no_status = refl },
          ))
    by_response (some (s, body)) e = rw (e, normalize_jira_error) (by_message s body _ refl)

-- Trying again may help: there is no response, or a status outside 400 to 499, a 408 or a 429.
abbrev pub IsTransient : Option (ℕ × Value) → Type 0
IsTransient none = Unit {0}
IsTransient (some (s, body)) = (s < 400) ⊎ (500 ≤ s) ⊎ (s ≡ 408) ⊎ (s ≡ 429)

-- A status from 400 to 499 without a message of its own, neither 408 nor 429, on a failure that
-- carries an error code.
abbrev pub IsCoded : HttpFailure → Option (ℕ × Value) → Type 0
IsCoded f none = ⊥
IsCoded f (some (s, body)) =
    (400 ≤ s)
    × (s < 500)
    × (s ≢ 400)
    × (s ≢ 401)
    × (s ≢ 403)
    × (s ≢ 404)
    × (s ≢ 408)
    × (s ≢ 429)
    × (has_code f ≡ true)

not_final_cases :
    (f : HttpFailure) (s : ℕ) (body : Value)
    → (¬ IsFinalStatus f s)
    → IsTransient (some (s, body)) ⊎ IsCoded f (some (s, body))
not_final_cases f s body h = by_code (Bool-cases (has_code f))
  where
    by_code :
        (has_code f ≡ true) ⊎ (has_code f ≡ false)
        → IsTransient (some (s, body)) ⊎ IsCoded f (some (s, body))
    by_code c = ground arith

rejected-cases :
    (f : HttpFailure) (r : Option (ℕ × Value)) → (¬ IsRejection f r) → IsTransient r ⊎ IsCoded f r
rejected-cases f none h = inl tt
rejected-cases f (some (s, body)) h = not_final_cases f s body h

-- Every failure of a request to Jira falls into one of two classes. If Jira turned the request down
-- with 400, 401, 403 or 404, or with another status from 400 to 499 that is neither 408 nor 429
-- while the failure carries no error code, the error is a business failure: it is not retryable, may
-- be shown to the client, and has Jira's status. If not, the error is retryable, no business
-- failure, and shows neither its message nor a status; then there is no response, or the status is
-- outside 400 to 499, a 408 or a 429, or it is one from 400 to 499 without a message of its own on
-- a failure that carries an error code.
pub normalize_jira_error-classes :
    (f : HttpFailure) (operation : String)
    → (IsRejection f f.response
        × IsBusiness (status_of f.response) (normalize_jira_error f operation))
      ⊎ ((¬ IsRejection f f.response)
          × (IsTransient f.response ⊎ IsCoded f f.response)
          × IsTechnical (normalize_jira_error f operation))
normalize_jira_error-classes f operation = elim (two_classes f operation) [
  | inl p ↦ inl p
  | inr (p, q) ↦ inr (p, rejected-cases f f.response p, q)
]
