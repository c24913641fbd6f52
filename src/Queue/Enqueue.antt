-- ===== src/Queue/Enqueue.antt =====
-- src/modules/workflow-processing/workflowProcessingQueue.service.js and
-- src/modules/workflow-processing/workflowProcessingJob.service.js
use gov_flow.Prelude.{ℕ, String, [], ◌∷◌, Option, none, some, or_else}
use gov_flow.Errors.{app_error}
use gov_flow.Js.Value.{Value, null, str, obj, object, nat, nullable, text_of}
use gov_flow.Database.{is_pending}
use gov_flow.Access.{Requester, or_null_column}
use gov_flow.Validators.WorkflowExecutions.{validate_workflow_execution_id}
use gov_flow.Runtime.{Env, M, pure, ◌>>=◌, ◌>>◌, require, require_some, require_valid}
use gov_flow.Executions.Service.{accessible_execution}
use gov_flow.Queue.{
  QueueService, Job, build_workflow_processing_job_id, workflow_processing_queue_name, queue_add,
  queue_get_job, queue_get_state, queue_name_of, format_timestamp,
}

-- The response to a request to process an execution
pub record Enqueued : Type 0 where
  pub job_id : String
  pub queue_name : Option String
  pub execution_id : String
  pub status : String

pub record JobStatus : Type 0 where
  pub execution_id : String
  pub job_id : String
  pub queue_name : String
  pub state : String
  pub attempts_made : ℕ
  pub attempts_started : ℕ
  pub max_attempts : Value
  pub failed_reason : Value
  pub processed_on : Value
  pub finished_on : Value

-- `job.opts?.attempts ?? null`
abbrev pub number_or_null : Option ℕ → Value
number_or_null none = null
number_or_null (some n) = nat n

abbrev pub missing_job : String → JobStatus
missing_job execution_id = record {
  execution_id = execution_id;
  job_id = build_workflow_processing_job_id execution_id;
  queue_name = workflow_processing_queue_name;
  state = "not_found";
  attempts_made = 0;
  attempts_started = 0;
  max_attempts = null;
  failed_reason = null;
  processed_on = null;
  finished_on = null;
}

abbrev pub job_data : String → String → Value
job_data execution_id processed_by =
    obj (object (("executionId", str execution_id) ∷ ("processedBy", str processed_by) ∷ []))

module _ (env : Env) where
  abbrev pub job_status : String → Job → String → JobStatus
  job_status execution_id j state = record {
    execution_id = execution_id;
    job_id = j.id;
    queue_name = queue_name_of j;
    state = state;
    attempts_made = or_else j.attempts_made 0;
    attempts_started = or_else j.attempts_started (or_else j.attempts_made 0);
    max_attempts = number_or_null j.max_attempts;
    failed_reason = nullable (or_null_column j.failed_reason);
    processed_on = format_timestamp env j.processed_on;
    finished_on = format_timestamp env j.finished_on;
  }

module _ (env : Env) (q : QueueService) where
  unfoldable pub enqueue_workflow_execution_processing :
      Value → (processed_by : Option String) → Option Requester → M Enqueued
  unfolding accessible_execution build_workflow_processing_job_id
  enqueue_workflow_execution_processing id processed_by requester = do
    require_valid "Validation failed" (validate_workflow_execution_id id)
    actor ←
        require_some (or_null_column processed_by) (app_error "Authenticated user is required" 401)
    execution ← accessible_execution env (text_of id) requester
    require (is_pending execution.status)
        (app_error "Only PENDING workflow executions can be queued" 409)
    job ← queue_add q (build_workflow_processing_job_id (text_of id)) (job_data (text_of id) actor)
    pure (record {
      job_id = job.id;
      queue_name = job.queue_name;
      execution_id = text_of id;
      status = "QUEUED";
    })

  unfoldable pub status_of_job : String → Option Job → M JobStatus
  unfolding build_workflow_processing_job_id
  status_of_job execution_id none = pure (missing_job execution_id)
  status_of_job execution_id (some j) = do
    state ← queue_get_state q j.id
    pure (job_status env execution_id j state)

  unfoldable pub get_workflow_execution_processing_job_status :
      Value → Option Requester → M JobStatus
  unfolding accessible_execution build_workflow_processing_job_id status_of_job
  get_workflow_execution_processing_job_status id requester = do
    require_valid "Validation failed" (validate_workflow_execution_id id)
    accessible_execution env (text_of id) requester
    job ← queue_get_job q (build_workflow_processing_job_id (text_of id))
    status_of_job (text_of id) job
