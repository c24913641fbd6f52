-- ===== src/Processing/Recovery/Values.antt =====
-- What the recovery of src/modules/workflow-processing/workflowExecutionRecovery.service.js computes
-- without an effect: the timeout and limit, the output of a recovered step, results and summaries.
use Prim.Native.Nat.{min}
use gov_flow.Prelude.{
  ℕ, zero, suc, String, Bool, true, false, ◌&&◌, List, [], ◌∷◌, Option, none, some, ◌==◌,
  if◌then◌else◌, length, or_else,
}
use gov_flow.Js.Text.{trim}
use gov_flow.Js.Value.{Value, bool, num, str, obj, whole, pos, get, truthy, object}
use gov_flow.Errors.{Error, ErrorClass, race_lost, plain_error}
use gov_flow.Database.{Execution, ExecutionStep, ExecutionStatus, is_step_running}
use gov_flow.Validators.WorkflowExecutions.{max_recovery_limit}
use gov_flow.Executions.StepRepository.{StepDetails}
use gov_flow.Jira.Service.{FoundComment}
use gov_flow.Runtime.{M, pure, throw}
use gov_flow.Processing.Processor.{idempotency_key}

abbrev pub recovery_reason : String
recovery_reason = "Execution timed out while running"

-- `new StaleRecoveryRaceLost()`
abbrev pub race_lost_error : Error
race_lost_error = record (plain_error "") { class = race_lost }

abbrev pub is_race_lost : ErrorClass → Bool
is_race_lost race_lost = true
is_race_lost c = false

-- A value that passed its validation is nullish, an empty text or a positive integer.
abbrev pub positive_whole : Value → Option ℕ
positive_whole (num (whole (pos zero))) = none
positive_whole (num (whole (pos (suc n)))) = some (suc n)
positive_whole v = none

unfoldable pub resolve_timeout_minutes : ℕ → Value → ℕ
resolve_timeout_minutes default v = or_else (positive_whole v) default

unfoldable pub resolve_limit : Value → ℕ
resolve_limit v = elim (positive_whole v) [
  | none ↦ max_recovery_limit
  | some n ↦ min n max_recovery_limit
]

-- A step whose comment Jira turned out to hold.
pub record RecoveredStep : Type 0 where
  pub execution_step_id : String
  pub step_id : String
  pub output : Value

abbrev pub lookup_recovered : String → List RecoveredStep → Option RecoveredStep
lookup_recovered id [] = none
lookup_recovered id (r ∷ rs) = if r.execution_step_id == id then some r else lookup_recovered id rs

abbrev pub may_be_recovered : StepDetails → Bool
may_be_recovered step =
    is_step_running step.status
    && step.action_type == "JIRA_COMMENT"
    && truthy (get "issueKey" step.configuration)

unfoldable pub recovered_output : StepDetails → FoundComment → Value
unfolding idempotency_key
recovered_output step found = obj (
    object (
      ("provider", str "jira")
      ∷ ("operation", str "comment")
      ∷ ("issueKey", str found.issue_key)
      ∷ ("commentId", found.comment_id)
      ∷ ("status", str "completed")
      ∷ ("idempotencyKey", str (idempotency_key step.id))
      ∷ ("recoveredViaRemoteLookup", bool true)
      ∷ []))

-- `value.trim()`, which is a TypeError on what is no text
abbrev pub trim_value : Value → M String
trim_value (str s) = pure (trim s)
trim_value v = throw (plain_error "trim is not a function")

abbrev pub failed_entry : ExecutionStep → Value
failed_entry s = obj (
    object (
      ("executionStepId", str s.id)
      ∷ ("stepId", str s.step_id)
      ∷ ("error", str recovery_reason)
      ∷ []))

abbrev pub recovered_entry : RecoveredStep → Value
recovered_entry r = obj (
    object (
      ("executionStepId", str r.execution_step_id)
      ∷ ("stepId", str r.step_id)
      ∷ ("recoveredViaRemoteLookup", bool true)
      ∷ []))

-- The RUNNING steps of an execution after the transaction has gone through them.
pub record Sorted : Type 0 where
  pub failed_steps : List ExecutionStep
  pub recovered_steps : List RecoveredStep

pub record Recovery : Type 0 where
  pub execution : Execution
  pub steps : Sorted

pub record RecoveredExecution : Type 0 where
  pub id : String
  pub workflow_id : String
  pub status : ExecutionStatus
  pub started_at : Option ℕ
  pub completed_at : Option ℕ
  pub failed_running_steps_count : ℕ
  pub recovered_running_steps_count : ℕ

pub record RecoverySummary : Type 0 where
  pub timeout_minutes : ℕ
  pub scanned_count : ℕ
  pub recovered_count : ℕ
  pub recovered_executions : List RecoveredExecution

abbrev pub summary_of : Recovery → RecoveredExecution
summary_of r = record {
  id = r.execution.id;
  workflow_id = r.execution.workflow_id;
  status = r.execution.status;
  started_at = r.execution.started_at;
  completed_at = r.execution.completed_at;
  failed_running_steps_count = length r.steps.failed_steps;
  recovered_running_steps_count = length r.steps.recovered_steps;
}
