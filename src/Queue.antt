-- ===== src/Queue.antt =====
-- src/queues/workflowProcessing.queue.js: the queue of jobs, as far as the services call it.
pub mod Enqueue
pub mod Admin
pub mod Calls
pub mod Guards
pub mod Entry
use Prim.Native.String.{◌++◌}
use gov_flow.Prelude.{
  ℕ, zero, suc, String, List, [], ◌∷◌, ◌++◌ as list_append, Option, none, some, same_number,
  if◌then◌else◌,
}
use gov_flow.Js.Value.{Value, null, str, coalesce, get}
use gov_flow.Errors.{Error}
use gov_flow.Runtime.{
  Env, World, M, Result, QueueCall, add_job, get_job, get_state, retry_job, remove_job, get_jobs,
  get_counts,
}

abbrev pub workflow_processing_queue_name : String
workflow_processing_queue_name = "workflow-processing"

unfoldable pub build_workflow_processing_job_id : String → String
build_workflow_processing_job_id execution_id = "workflow-execution-" ++ execution_id

-- A job as the queue hands it out; a property that may be missing is an `Option`.
pub record Job : Type 0 where
  pub id : String
  pub queue_name : Option String
  pub data_of_job : Value
  pub attempts_made : Option ℕ
  pub attempts_started : Option ℕ
  pub max_attempts : Option ℕ
  pub failed_reason : Option String
  pub processed_on : Option ℕ
  pub finished_on : Option ℕ
  pub timestamp : Option ℕ

-- What the n-th call of the queue answers.
pub record QueueService : Type 0 where
  pub on_add : ℕ → (job_id : String) → (job_data : Value) → Result Job
  pub on_get_job : ℕ → String → Result (Option Job)
  pub on_get_state : ℕ → String → Result String
  pub on_retry : ℕ → String → Result (Unit {0})
  pub on_remove : ℕ → String → Result (Unit {0})
  pub on_get_jobs : ℕ → String → (first last : ℕ) → Result (List Job)
  pub on_get_counts : ℕ → List String → Result (List (String × ℕ))

-- `job.data?.executionId ?? null`
abbrev pub execution_id_of_job : Job → Value
execution_id_of_job j = coalesce (get "executionId" j.data_of_job) null

abbrev pub text_or : String → Option String → String
text_or d none = d
text_or d (some s) = s

abbrev pub queue_name_of : Job → String
queue_name_of j = text_or workflow_processing_queue_name j.queue_name

module _ (env : Env) where
  -- `value ? new Date(value).toISOString() : null`
  abbrev pub format_timestamp : Option ℕ → Value
  format_timestamp none = null
  format_timestamp (some n) = if same_number n 0 then null else str (env.to_iso_string n)

-- An await of the queue: the call is made, whatever it answers.
unfoldable pub call_queue : {A : Type 0} → QueueCall → (ℕ → Result A) → M A
call_queue call answer w = (
  answer w.ticks,
  record w { ticks = suc w.ticks; queue_calls = list_append w.queue_calls (call ∷ []) },
)

module _ (q : QueueService) where
  unfoldable pub queue_add : String → Value → M Job
  queue_add id job_data = call_queue (add_job id) (λ n. q.on_add n id job_data)

  unfoldable pub queue_get_job : String → M (Option Job)
  queue_get_job id = call_queue (get_job id) (λ n. q.on_get_job n id)

  unfoldable pub queue_get_state : String → M String
  queue_get_state id = call_queue (get_state id) (λ n. q.on_get_state n id)

  unfoldable pub queue_retry : String → M (Unit {0})
  queue_retry id = call_queue (retry_job id) (λ n. q.on_retry n id)

  unfoldable pub queue_remove : String → M (Unit {0})
  queue_remove id = call_queue (remove_job id) (λ n. q.on_remove n id)

  unfoldable pub queue_get_jobs : String → (first last : ℕ) → M (List Job)
  queue_get_jobs state first last =
      call_queue (get_jobs state first last) (λ n. q.on_get_jobs n state first last)

  unfoldable pub queue_get_counts : List String → M (List (String × ℕ))
  queue_get_counts states = call_queue (get_counts states) (λ n. q.on_get_counts n states)
