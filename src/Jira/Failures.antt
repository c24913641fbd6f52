-- ===== src/Jira/Failures.antt =====
-- `normalizeJiraError` of src/modules/jira/jira.service.js and `sanitizeAxiosError` of
-- src/modules/jira/jira.errors.js.
pub mod Classes
pub mod Hidden
use Prim.Native.String.{◌++◌}
use gov_flow.Prelude.{
  ℕ, String, Bool, true, false, not, ◌&&◌, ◌||◌, Option, none, some, same_number, ltb, leb,
  if◌then◌else◌,
}
use gov_flow.Js.Text.{is_empty_text, decimal}
use gov_flow.Js.Value.{Value, undefined}
use gov_flow.Errors.{Error, Cause, jira_business_error, jira_technical_error}
use gov_flow.Runtime.{HttpFailure}

-- `JIRA_BUSINESS_ERROR_MESSAGE_BY_STATUS[status](operation)`
unfoldable pub business_message : ℕ → String → Option String
business_message status operation =
    if same_number status 400
    then some (
        "Jira rejected the "
        ++ (operation ++ " request as a bad request (status 400): check the request payload"))
    else if same_number status 401
    then some (
        "Jira rejected the "
        ++ (operation ++ " request: invalid or expired Jira credentials (status 401)"))
    else if same_number status 403
    then some (
        "Jira rejected the "
        ++ (operation
            ++ (" request: credentials are valid but lack "
                ++ "permission for this project/resource (status 403)")))
    else if same_number status 404
    then some ("Jira rejected the " ++ (operation ++ " request: resource not found (status 404)"))
    else none

-- `JIRA_RETRYABLE_4XX_STATUSES.has(status)`
unfoldable pub is_retryable_4xx : ℕ → Bool
is_retryable_4xx status = same_number status 408 || same_number status 429

-- `error.code` as a condition
unfoldable pub has_code : HttpFailure → Bool
has_code f = elim f.code [ none ↦ false | some c ↦ not (is_empty_text c) ]

unfoldable pub sanitize_axios_error : HttpFailure → Cause
sanitize_axios_error f = record {
  message = f.message;
  code = f.code;
  status = elim f.response [ none ↦ none | some (status, body) ↦ some status ];
  response_data = elim f.response [ none ↦ undefined | some (status, body) ↦ body ];
}

unfoldable pub unexpected_4xx_message : ℕ → String → String
unexpected_4xx_message status operation =
    "Jira rejected the "
    ++ (operation
        ++ (" request with an unexpected status (status "
            ++ (decimal status ++ "): treat as non-retryable and inspect the response")))

-- The branches below the table of messages, for a failure with a response.
unfoldable pub normalize_unmapped : HttpFailure → ℕ → String → Error
normalize_unmapped f status operation =
    if is_retryable_4xx status || leb 500 status || has_code f
    then jira_technical_error ("Temporary Jira " ++ (operation ++ " request failure"))
        (some (sanitize_axios_error f))
    else if leb 400 status && ltb status 500
    then jira_business_error (unexpected_4xx_message status operation) status
    else jira_technical_error ("Unexpected Jira " ++ (operation ++ " request failure"))
        (some (sanitize_axios_error f))

unfoldable pub normalize_jira_error : HttpFailure → String → Error
normalize_jira_error f operation = elim f.response [
  | none ↦
      jira_technical_error ("Temporary Jira " ++ (operation ++ " request failure"))
        (some (sanitize_axios_error f))
  | some (status, body) ↦ elim (business_message status operation) [
    | some message ↦ jira_business_error message status
    | none ↦ normalize_unmapped f status operation
  ]
]
