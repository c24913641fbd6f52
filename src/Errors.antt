-- ===== src/Errors.antt =====
-- What the services throw: src/errors/AppError.js, src/modules/jira/jira.errors.js, plain `Error`
-- objects, the `UnrecoverableError` of the job queue and the errors of the database driver.
pub mod Response
use gov_flow.Prelude.{ℕ, Bool, true, false, String, List, [], Option, none, some}
use gov_flow.Js.Value.{Value}

-- An entry of a list of validation errors.
pub record FieldError : Type 0 where
  pub field : String
  pub message : String

pub data ErrorClass : Type 0 where
  app jira_business jira_technical plain unrecoverable race_lost database : ErrorClass

-- What `sanitizeAxiosError` keeps of a cause.
pub record Cause : Type 0 where
  pub message : String
  pub code : Option String
  pub status : Option ℕ
  pub response_data : Value

-- The properties that some handler reads; one that an object lacks is `none`, `[]` or `false`.
pub record Error : Type 0 where
  pub class : ErrorClass
  pub message : String
  pub status_code : Option ℕ
  pub errors : List FieldError
  pub is_operational : Bool
  pub is_business_failure : Bool
  pub is_retryable : Bool
  pub code : Option String
  pub constraint : Option String
  pub cause : Option Cause

-- `new Error(message)`
abbrev pub plain_error : String → Error
plain_error message = record {
  class = plain;
  message = message;
  status_code = none;
  errors = [];
  is_operational = false;
  is_business_failure = false;
  is_retryable = false;
  code = none;
  constraint = none;
  cause = none;
}

-- `new AppError(message, statusCode, errors)`
abbrev pub app_error_with : String → ℕ → List FieldError → Error
app_error_with message status errors = record (plain_error message) {
  class = app;
  status_code = some status;
  errors = errors;
  is_operational = true;
}

abbrev pub app_error : String → ℕ → Error
app_error message status = app_error_with message status []

-- `new JiraBusinessError(message, statusCode)`
abbrev pub jira_business_error : String → ℕ → Error
jira_business_error message status = record (plain_error message) {
  class = jira_business;
  status_code = some status;
  is_operational = true;
  is_business_failure = true;
}

-- `new JiraTechnicalError(message, cause)`, its cause already cut down by `sanitizeAxiosError`
abbrev pub jira_technical_error : String → Option Cause → Error
jira_technical_error message cause = record (plain_error message) {
  class = jira_technical;
  is_retryable = true;
  cause = cause;
}

-- `new UnrecoverableError(message)`, on which the queue gives a job up
abbrev pub unrecoverable_error : String → Error
unrecoverable_error message = record (plain_error message) { class = unrecoverable }
