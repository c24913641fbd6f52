-- ===== src/Jira/Failures/Hidden.antt =====
-- What a client learns of a failure of Jira.
use Prim.Native.String.{◌++◌}
use gov_flow.Prelude.{
  ℕ, String, false, ◌≡◌, refl, sym, ◌∙◌, ap, Option, none, some, ◌==◌, Bool-cases, Option-cases,
  arith, inl, inr, ◌||◌, ◌&&◌, leb, ltb,
}
use gov_flow.Js.Value.{Value}
use gov_flow.Errors.{Error, jira_business_error, jira_technical_error}
use gov_flow.Errors.Response.{thrown_of, error_middleware}
use gov_flow.Runtime.{HttpFailure}
use gov_flow.Jira.Failures.{
  business_message, is_retryable_4xx, has_code, normalize_unmapped, normalize_jira_error,
  sanitize_axios_error,
}
use gov_flow.Jira.Failures.Classes.{status_of}

-- An error less its cause
abbrev uncaused : Error → Error
uncaused e = record e { cause = none }

unmapped_uncaused :
    (f g : HttpFailure) (s : ℕ) (operation : String)
    → has_code f ≡ has_code g
    → uncaused (normalize_unmapped f s operation) ≡ uncaused (normalize_unmapped g s operation)
unfolding normalize_unmapped
unmapped_uncaused f g s operation h =
    rw h (elim (Bool-cases (is_retryable_4xx s || leb 500 s || has_code g)) [
      | inl a ↦ rw a refl
      | inr a ↦
          rw a
            (elim (Bool-cases (leb 400 s && ltb s 500)) [ inl b ↦ rw b refl | inr b ↦ rw b refl ])
    ])

-- The error for a failure with that response
abbrev by_response : HttpFailure → String → Option (ℕ × Value) → Error
by_response f operation none =
    jira_technical_error ("Temporary Jira " ++ (operation ++ " request failure"))
      (some (sanitize_axios_error f))
by_response f operation (some (s, body)) = elim (business_message s operation) [
  | some message ↦ jira_business_error message s
  | none ↦ normalize_unmapped f s operation
]

responses_uncaused :
    (f g : HttpFailure) (operation : String) (r t : Option (ℕ × Value))
    → status_of r ≡ status_of t
    → has_code f ≡ has_code g
    → uncaused (by_response f operation r) ≡ uncaused (by_response g operation t)
responses_uncaused f g operation none none e h = refl
responses_uncaused f g operation (some (s, x)) none e h = ground arith
responses_uncaused f g operation none (some (u, y)) e h = ground arith
responses_uncaused f g operation (some (s, x)) (some (u, y)) e h =
    rw (same e) (elim (Option-cases (business_message u operation)) [
      | inl n ↦ rw (n, by_response) (unmapped_uncaused f g u operation h)
      | inr (m, n) ↦ rw (n, by_response) refl
    ])
  where
    same : status_of (some (s, x)) ≡ status_of (some (u, y)) → s ≡ u
    same e = ground arith

normalized_uncaused :
    (f g : HttpFailure) (operation : String)
    → status_of f.response ≡ status_of g.response
    → has_code f ≡ has_code g
    → uncaused (normalize_jira_error f operation) ≡ uncaused (normalize_jira_error g operation)
unfolding normalize_jira_error
normalized_uncaused f g operation e h =
    by_cases f f.response
    ∙ (responses_uncaused f g operation f.response g.response e h ∙ sym (by_cases g g.response))
  where
    by_cases :
        (k : HttpFailure) (r : Option (ℕ × Value))
        → uncaused (elim r [
          | none ↦
              jira_technical_error
                ("Temporary Jira " ++ (operation ++ " request failure"))
                (some (sanitize_axios_error k))
          | some (s, body) ↦ elim (business_message s operation) [
            | some message ↦ jira_business_error message s
            | none ↦ normalize_unmapped k s operation
          ]
        ])
          ≡ uncaused (by_response k operation r)
    by_cases k none = refl
    by_cases k (some (s, body)) = refl

told_uncaused :
    (node_env : String) (name stack name2 stack2 : Value) (e : Error)
    → (node_env == "development") ≡ false
    → error_middleware node_env (thrown_of name stack e)
      ≡ error_middleware node_env (thrown_of name2 stack2 (uncaused e))
unfolding error_middleware
told_uncaused node_env name stack name2 stack2 e h = rw h refl

-- Outside of development, what the client is told of a failed request to Jira depends on no more
-- than the status of Jira's response and whether the failure has an error code: two failures that
-- agree on these get the same response, whatever Jira wrote into its own response and whatever the
-- HTTP client put into the failure's message.
pub normalize_jira_error-hides :
    (node_env : String) (f g : HttpFailure) (operation : String) (name stack name2 stack2 : Value)
    → (node_env == "development") ≡ false
    → status_of f.response ≡ status_of g.response
    → has_code f ≡ has_code g
    → error_middleware node_env (thrown_of name stack (normalize_jira_error f operation))
      ≡ error_middleware node_env (thrown_of name2 stack2 (normalize_jira_error g operation))
normalize_jira_error-hides node_env f g operation name stack name2 stack2 outside same_status
      same_code =
    told_uncaused node_env name stack name2 stack2 (normalize_jira_error f operation) outside
    ∙ ap (λ (e : Error). error_middleware node_env (thrown_of name2 stack2 e))
        (normalized_uncaused f g operation same_status same_code)
    ∙ sym (
        told_uncaused node_env name2 stack2 name2 stack2 (normalize_jira_error g operation) outside)
