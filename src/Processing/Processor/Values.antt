-- ===== src/Processing/Processor/Values.antt =====
-- What the processor of src/modules/workflow-processing/workflowProcessor.service.js computes
-- without an effect: outputs, results, audit entries and the errors it throws.
use Prim.Native.String.{◌++◌}
use gov_flow.Prelude.{
  ℕ, String, true, ◌&&◌, List, [], ◌∷◌, map, Option, none, some, if◌then◌else◌, length,
}
use gov_flow.Js.Text.{is_empty_text}
use gov_flow.Js.Value.{
  Value, null, str, arr, obj, get, truthy, is_text, items, object, nat, spread, append_fields,
}
use gov_flow.Errors.{Error, plain_error}
use gov_flow.Database.{Execution, StepStatus, running, status_text, step_status_text}
use gov_flow.Validators.AuditLogs.{AuditPayload}
use gov_flow.Executions.Repository.{ExecutionDetails}
use gov_flow.Executions.StepRepository.{StepDetails}

-- What the loop over the steps carries along.
pub record Context : Type 0 where
  pub execution_id : String
  pub processed_by : Value
  pub execution : ExecutionDetails

-- An entry of `stepOutputs`.
pub record StepOutput : Type 0 where
  pub execution_step_id : String
  pub step_id : String
  pub step_order : ℕ
  pub action_type : String
  pub output : Value

abbrev pub output_of : StepDetails → Value → StepOutput
output_of step output = record {
  execution_step_id = step.id;
  step_id = step.step_id;
  step_order = step.step_order;
  action_type = step.action_type;
  output = output;
}

unfoldable pub step_output_value : StepOutput → Value
step_output_value o = obj (
    object (
      ("executionStepId", str o.execution_step_id)
      ∷ ("stepId", str o.step_id)
      ∷ ("stepOrder", nat o.step_order)
      ∷ ("actionType", str o.action_type)
      ∷ ("output", o.output)
      ∷ []))

-- The `result` column of an execution that completed.
unfoldable pub completed_result : Value → List StepOutput → Value
unfolding step_output_value
completed_result processed_by outputs = obj (
    object (
      ("processedBy", processed_by)
      ∷ ("stepsProcessed", nat (length outputs))
      ∷ ("steps", arr (items (map step_output_value outputs)))
      ∷ []))

unfoldable pub failed_step_value : StepDetails → String → Value
failed_step_value step error = obj (
    object (
      ("executionStepId", str step.id)
      ∷ ("stepId", str step.step_id)
      ∷ ("stepOrder", nat step.step_order)
      ∷ ("actionType", str step.action_type)
      ∷ ("error", str error)
      ∷ []))

-- The `result` column of an execution that failed at a step.
unfoldable pub failed_result : Value → List StepOutput → StepDetails → String → Value
unfolding step_output_value failed_step_value
failed_result processed_by outputs step error = obj (
    object (
      ("processedBy", processed_by)
      ∷ ("stepsProcessed", nat (length outputs))
      ∷ ("failedStep", failed_step_value step error)
      ∷ ("steps", arr (items (map step_output_value outputs)))
      ∷ []))

unfoldable pub idempotency_key : String → String
idempotency_key id = "workflowExecutionStep:" ++ id

unfoldable pub enrich_step_output : StepDetails → Value → Value
unfolding idempotency_key
enrich_step_output step output = obj (
    append_fields (spread output) (object (("idempotencyKey", str (idempotency_key step.id)) ∷ [])))

unfoldable pub get_external_operation_dedup_reason : Value → Option String
get_external_operation_dedup_reason output =
    if is_text (get "provider" output) "jira"
      && is_text (get "operation" output) "comment"
      && truthy (get "commentId" output)
    then some "comment_already_created"
    else if is_text (get "provider" output) "jira"
        && is_text (get "operation" output) "transition"
        && truthy (get "transitionId" output)
    then some "transition_already_applied"
    else none

abbrev pub execution_audit_of : String → Context → String → List (String × Value) → AuditPayload
execution_audit_of workflow_id c action metadata = record {
  action = str action;
  entity = str "workflow_execution";
  entity_id = str c.execution_id;
  actor_id = c.processed_by;
  metadata = obj (object (("workflowId", str workflow_id) ∷ metadata));
}

abbrev pub execution_audit : Context → String → List (String × Value) → AuditPayload
execution_audit c = execution_audit_of c.execution.workflow_id c

abbrev pub skip_audit : Context → StepDetails → List (String × Value) → AuditPayload
skip_audit c step metadata = record {
  action = str "WORKFLOW_EXECUTION_STEP_SKIPPED";
  entity = str "workflow_execution_step";
  entity_id = str step.id;
  actor_id = c.processed_by;
  metadata = obj (
      object (
        ("workflowId", str c.execution.workflow_id)
        ∷ ("stepId", str step.step_id)
        ∷ ("stepOrder", nat step.step_order)
        ∷ metadata));
}

abbrev pub failure_metadata : StepDetails → String → List (String × Value)
failure_metadata step error =
    ("failedStepId", str step.step_id)
    ∷ ("failedStepOrder", nat step.step_order)
    ∷ ("error", str error)
    ∷ []

abbrev pub row_of : Option ExecutionDetails → Option Execution
row_of none = none
row_of (some x) = some x.execution

abbrev pub current_status : Option ExecutionDetails → Value
current_status none = null
current_status (some x) = str (status_text x.status)

-- How one step of the loop ends: `continue` with an output, or `return` of an execution.
pub data Verdict : Type 0 where
  proceed : StepOutput → Verdict
  stop : Option Execution → Verdict

abbrev pub claim_error : StepDetails → Error
claim_error step =
    record (plain_error (
      "Workflow execution step "
      ++ (step.id
          ++ (" could not be claimed (status: " ++ (step_status_text step.status ++ ")"))))) {
            is_retryable = true;
          }

-- `step.error_message || …`
abbrev pub recorded_error : Option String → String
recorded_error none = "Workflow execution step already failed"
recorded_error (some m) = if is_empty_text m then "Workflow execution step already failed" else m

abbrev pub unclaimed_reason : StepStatus → String
unclaimed_reason running = "running_unresolved"
unclaimed_reason s = "claim_failed"
