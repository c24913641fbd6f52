-- ===== src/Queue/Admin.antt =====
-- src/modules/admin/adminQueue.service.js and src/validators/adminQueue.validator.js
use Prim.Native.String
use gov_flow.Prelude.{
  ℕ, ◌+◌, ◌-◌, ◌*◌, String, Bool, false, ◌||◌, List, [], ◌∷◌, ◌++◌, map, Option, none, some, ◌==◌,
  or_else, leb, if◌then◌else◌,
}
use gov_flow.Errors.{FieldError, app_error}
use gov_flow.Js.Text.{trim, is_empty_text}
use gov_flow.Js.Value.{Value, undefined, str, nullable, Number, whole, pos}
use gov_flow.Js.Number.{to_number, or_number}
use gov_flow.Access.{or_null_column}
use gov_flow.Validators.Common.{field_error}
use gov_flow.Runtime.{Env, M, pure, ◌>>=◌, ◌>>◌, require, require_some, require_valid}
use gov_flow.Queue.{
  QueueService, Job, execution_id_of_job, queue_name_of, format_timestamp, queue_get_job,
  queue_get_state, queue_retry, queue_remove, queue_get_jobs, queue_get_counts,
}
use gov_flow.Queue.Enqueue.{number_or_null}

abbrev pub is_job_state : String → Bool
is_job_state s =
    s == "waiting" || s == "active" || s == "completed" || s == "failed" || s == "delayed"

-- `!VALID_JOB_STATES.includes(state)`, where there is one
unfoldable pub validate_state : Value → List FieldError
validate_state undefined = []
validate_state (str s) =
    if is_job_state s
    then []
    else field_error "state" "state must be one of: waiting, active, completed, failed, delayed"
validate_state v =
    field_error "state" "state must be one of: waiting, active, completed, failed, delayed"

-- An integer from 1 up to a bound, if there is one
abbrev pub is_between : Option ℕ → Number → Bool
is_between none (whole (pos n)) = leb 1 n
is_between (some m) (whole (pos n)) = if leb 1 n then leb n m else false
is_between bound n = false

-- `job.remove()` is called in these states only.
abbrev pub is_deletable : String → Bool
is_deletable s = s == "completed" || s == "failed"

unfoldable pub validate_job_id : Value → List FieldError
unfolding trim
validate_job_id (str s) =
    if is_empty_text (trim s) then field_error "jobId" "jobId is required" else []
validate_job_id v = field_error "jobId" "jobId is required"

pub record JobView : Type 0 where
  pub job_id : String
  pub queue_name : String
  pub execution_id : Value
  pub attempts_made : ℕ
  pub max_attempts : Value
  pub failed_reason : Value
  pub processed_on : Value
  pub finished_on : Value
  pub timestamp : Value

pub record JobPage : Type 0 where
  pub state : String
  pub page : ℕ
  pub limit : ℕ
  pub total : ℕ
  pub jobs : List JobView

pub record Retried : Type 0 where
  pub job_id : String
  pub execution_id : Value
  pub new_state : String

pub record Deleted : Type 0 where
  pub job_id : String
  pub execution_id : Value
  pub deleted_state : String

-- `counts[state]`
abbrev pub count_of : String → List (String × ℕ) → Option ℕ
count_of state [] = none
count_of state ((k, n) ∷ rest) = if k == state then some n else count_of state rest

-- `state || "failed"`, on a state that passed its check
abbrev pub state_or_failed : Value → String
state_or_failed (str s) = if is_empty_text s then "failed" else s
state_or_failed v = "failed"

-- The number of a parameter that passed its check
abbrev pub whole_of : Number → ℕ
whole_of (whole (pos n)) = n
whole_of n = 0

abbrev pub counted_states : List String
counted_states = "waiting" ∷ "active" ∷ "completed" ∷ "failed" ∷ "delayed" ∷ "paused" ∷ []

module _ (env : Env) where
  abbrev pub parsed : Value → Number
  parsed v = to_number env.parse_number env.to_text v

  abbrev pub validate_integer : String → String → Option ℕ → Value → List FieldError
  validate_integer field message bound undefined = []
  validate_integer field message bound v =
      if is_between bound (parsed v) then [] else field_error field message

  unfoldable pub validate_list_jobs_filters : (state page limit : Value) → List FieldError
  unfolding validate_state to_number
  validate_list_jobs_filters state page limit =
      validate_state state
      ++ (validate_integer "page" "page must be a positive integer" none page
          ++ validate_integer "limit" "limit must be an integer between 1 and 100" (some 100) limit)

  unfoldable pub format_job : Job → JobView
  format_job j = record {
    job_id = j.id;
    queue_name = queue_name_of j;
    execution_id = execution_id_of_job j;
    attempts_made = or_else j.attempts_made 0;
    max_attempts = number_or_null j.max_attempts;
    failed_reason = nullable (or_null_column j.failed_reason);
    processed_on = format_timestamp env j.processed_on;
    finished_on = format_timestamp env j.finished_on;
    timestamp = format_timestamp env j.timestamp;
  }

module _ (env : Env) (q : QueueService) where
  unfoldable pub get_queue_stats : M (List (String × ℕ))
  get_queue_stats = queue_get_counts q counted_states

  unfoldable pub list_jobs_at : String → (page limit : ℕ) → M JobPage
  unfolding format_job
  list_jobs_at state page limit = do
    jobs ← queue_get_jobs q state ((page - 1) * limit) ((page - 1) * limit + limit - 1)
    counts ← queue_get_counts q (state ∷ [])
    pure (record {
      state = state;
      page = page;
      limit = limit;
      total = or_else (count_of state counts) 0;
      jobs = map (format_job env) jobs;
    })

  unfoldable pub list_jobs : (state page limit : Value) → M JobPage
  unfolding list_jobs_at validate_list_jobs_filters
  list_jobs state page limit = do
    require_valid "Validation failed" (validate_list_jobs_filters env state page limit)
    list_jobs_at (state_or_failed state) (whole_of (or_number (parsed env page) 1))
        (whole_of (or_number (parsed env limit) 20))

  unfoldable pub retry_failed_job : String → M Retried
  retry_failed_job id = do
    row ← queue_get_job q id
    job ← require_some row (app_error "Job not found" 404)
    state ← queue_get_state q job.id
    require (state == "failed")
        (app_error (String.◌++◌ "Only failed jobs can be retried. Current state: " state) 409)
    queue_retry q job.id
    new_state ← queue_get_state q job.id
    pure (record { job_id = job.id; execution_id = execution_id_of_job job; new_state = new_state })

  unfoldable pub delete_finished_job : String → M Deleted
  delete_finished_job id = do
    row ← queue_get_job q id
    job ← require_some row (app_error "Job not found" 404)
    state ← queue_get_state q job.id
    require (is_deletable state) (
        app_error
          (String.◌++◌ "Only completed or failed jobs can be deleted. Current state: " state) 409)
    queue_remove q job.id
    pure (record { job_id = job.id; execution_id = execution_id_of_job job; deleted_state = state })

  -- `retryJob` and `deleteJob`; a path parameter is a text
  unfoldable pub retry_job_by_id : String → M Retried
  unfolding retry_failed_job
  retry_job_by_id id = do
    require_valid "Validation failed" (validate_job_id (str id))
    retry_failed_job id

  unfoldable pub delete_job_by_id : String → M Deleted
  unfolding delete_finished_job
  delete_job_by_id id = do
    require_valid "Validation failed" (validate_job_id (str id))
    delete_finished_job id
