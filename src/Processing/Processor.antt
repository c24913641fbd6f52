-- ===== src/Processing/Processor.antt =====
-- src/modules/workflow-processing/workflowProcessor.service.js
pub mod Evolution
pub mod Step
pub mod Outcome
pub mod Told
pub mod Failure
pub mod Dedup
pub mod Reentry
pub mod Values
unfoldable pub use Values.*
use Prim.Native.String.{◌++◌}
use gov_flow.Prelude.{
  ℕ, String, Bool, true, false, not, ◌&&◌, ◌||◌, List, [], ◌∷◌, map, Option, none, some, ◌==◌,
  if◌then◌else◌, length, is_empty, or_else,
}
use mathlib.Core.List
use gov_flow.Js.Text.{is_empty_text}
use gov_flow.Js.Value.{
  Value, null, bool, str, arr, obj, get, truthy, is_text, coalesce, text_of, items, object, nat,
  spread, append_fields, nullable,
}
use gov_flow.Errors.{Error, plain_error, app_error}
use gov_flow.Database.{
  Execution, ExecutionStep, ExecutionStatus, StepStatus, pending, running, completed, failed,
  status_text, step_status_text, is_pending, is_running,
}
use gov_flow.Validators.AuditLogs.{AuditPayload}
use gov_flow.Validators.WorkflowExecutions.{validate_workflow_execution_id}
use gov_flow.Executions.Repository.{
  ExecutionDetails, find_by_id, claim_pending_execution, finalize_running_execution,
}
use gov_flow.Executions.StepRepository.{
  StepDetails, find_by_execution_id, claim_pending_step, update_status,
}
use gov_flow.AuditLogs.{safe_register_audit_log}
use gov_flow.Runtime.{
  Env, M, Result, ok, err, pure, throw, ◌>>=◌, ◌>>◌, try, require, require_some, require_valid,
  query, clock,
}
use gov_flow.Processing.Handlers.{handle_workflow_step_with_context}

module _ (env : Env) (c : Context) where
  unfoldable pub finalize_concurrently_claimed_execution : M (Option Execution)
  finalize_concurrently_claimed_execution = do
    current ← query env (find_by_id c.execution_id)
    safe_register_audit_log env (
        execution_audit c "WORKFLOW_EXECUTION_PROCESS_SKIPPED" (
          ("reason", str "Execution was already finalized before processing completed")
          ∷ ("currentStatus", current_status current)
          ∷ []))
    pure (row_of current)

  abbrev pub report_failed : StepDetails → String → Option Execution → M (Option Execution)
  report_failed step error none = finalize_concurrently_claimed_execution
  report_failed step error (some x) = do
    safe_register_audit_log env
        (execution_audit c "WORKFLOW_EXECUTION_PROCESS_FAILED" (failure_metadata step error))
    pure (some x)

  -- The end of both branches that finalize the execution as FAILED.
  unfoldable pub finalize_failed : List StepOutput → StepDetails → String → M (Option Execution)
  finalize_failed outputs step error = do
    final ← query env (
        finalize_running_execution c.execution_id failed
          (failed_result c.processed_by outputs step error))
    report_failed step error final

  unfoldable pub unclaimable : StepDetails → M Verdict
  unclaimable step = do
    safe_register_audit_log env (
        skip_audit c step (
          ("currentStatus", str (step_status_text step.status))
          ∷ ("reason", str (unclaimed_reason step.status))
          ∷ []))
    throw (claim_error step)

  unfoldable pub skip_completed : StepDetails → M Verdict
  skip_completed step = do
    safe_register_audit_log env (skip_audit c step (("reason", str "already_completed") ∷ []))
    pure (
        proceed (
          output_of step (
            coalesce step.output
              (obj (object (("skipped", bool true) ∷ ("reason", str "already_completed") ∷ []))))))

  -- `if (!claimedStep)`: by the status that the loop read
  abbrev pub on_unclaimed_at : StepStatus → List StepOutput → StepDetails → M Verdict
  on_unclaimed_at completed outputs step = skip_completed step
  on_unclaimed_at failed outputs step = do
    x ← finalize_failed outputs step (recorded_error step.error_message)
    pure (stop x)
  on_unclaimed_at s outputs step = unclaimable step

  unfoldable pub on_unclaimed : List StepOutput → StepDetails → M Verdict
  on_unclaimed outputs step = on_unclaimed_at step.status outputs step

  unfoldable pub complete_step : StepDetails → Value → M Verdict
  complete_step step output = do
    now ← clock env
    query env (
        update_status step.id (record {
          status = completed;
          completed_at = some now;
          error_message = none;
          output = output;
        }))
    pure (proceed (output_of step output))

  -- `if (dedupReason)`
  unfoldable pub reuse_output : StepDetails → String → M Verdict
  reuse_output step reason = do
    safe_register_audit_log env (skip_audit c step (("reason", str reason) ∷ []))
    complete_step step step.output

  -- The `try` around the handler
  unfoldable pub run_handler : StepDetails → M Verdict
  run_handler step = do
    output ← handle_workflow_step_with_context env step c.execution
    complete_step step (enrich_step_output step output)

  unfoldable pub revert_step : StepDetails → Error → M Verdict
  revert_step step error = do
    query env (
        update_status step.id (record {
          status = pending;
          completed_at = none;
          error_message = some error.message;
          output = null;
        }))
    safe_register_audit_log env (
        execution_audit c "WORKFLOW_EXECUTION_PROCESS_TECHNICAL_FAILURE"
          (failure_metadata step error.message))
    throw error

  unfoldable pub fail_step : List StepOutput → StepDetails → Error → M Verdict
  fail_step outputs step error = do
    now ← clock env
    query env (
        update_status step.id (record {
          status = failed;
          completed_at = some now;
          error_message = some error.message;
          output = null;
        }))
    x ← finalize_failed outputs step error.message
    pure (stop x)

  -- The `catch` around the handler
  unfoldable pub on_handler_error : List StepOutput → StepDetails → Error → M Verdict
  on_handler_error outputs step error =
      if error.is_retryable then revert_step step error else fail_step outputs step error

  -- A claimed step whose output tells of no earlier call of Jira runs its handler.
  abbrev pub on_claimed : Option String → List StepOutput → StepDetails → M Verdict
  on_claimed (some reason) outputs step = reuse_output step reason
  on_claimed none outputs step = try (run_handler step) (on_handler_error outputs step)

  abbrev pub after_claim : Option ExecutionStep → List StepOutput → StepDetails → M Verdict
  after_claim none outputs step = on_unclaimed outputs step
  after_claim (some row) outputs step =
      on_claimed (get_external_operation_dedup_reason step.output) outputs step

  unfoldable pub process_step : List StepOutput → StepDetails → M Verdict
  process_step outputs step = do
    claimed ← query env (claim_pending_step step.id)
    after_claim claimed outputs step

  abbrev pub report_completed : List StepOutput → Option Execution → M (Option Execution)
  report_completed outputs none = finalize_concurrently_claimed_execution
  report_completed outputs (some x) = do
    safe_register_audit_log env (
        execution_audit_of x.workflow_id c "WORKFLOW_EXECUTION_PROCESS_COMPLETED"
          (("status", str (status_text x.status)) ∷ ("stepsProcessed", nat (length outputs)) ∷ []))
    pure (some x)

  unfoldable pub finalize_completed : List StepOutput → M (Option Execution)
  finalize_completed outputs = do
    final ← query env (
        finalize_running_execution c.execution_id completed
          (completed_result c.processed_by outputs))
    report_completed outputs final

  -- The loop over the steps, and what follows it.
  unfoldable pub process_steps : List StepOutput → List StepDetails → M (Option Execution)
  process_steps outputs [] = finalize_completed outputs
  process_steps outputs (step ∷ rest) = process_step outputs step >>= λ verdict. elim verdict [
    | proceed output ↦ process_steps (List.◌++◌ outputs (output ∷ [])) rest
    | stop x ↦ pure x
  ]

abbrev pub is_processable : ExecutionStatus → Bool
is_processable s = is_pending s || is_running s

module _ (env : Env) where
  -- A PENDING execution has to be claimed; a RUNNING one is a retry of the same job.
  unfoldable pub claim_execution : String → ExecutionDetails → M (Unit {0})
  claim_execution id execution =
      if is_pending execution.status
      then (query env (claim_pending_execution id) >>= λ claimed.
          require_some claimed (app_error "Only PENDING workflow executions can be processed" 409)
          >> pure tt)
      else pure tt

  unfoldable pub process_workflow_execution : Value → Value → M (Option Execution)
  process_workflow_execution execution_id processed_by = do
    require_valid "Validation failed" (validate_workflow_execution_id execution_id)
    require (truthy processed_by) (app_error "Authenticated user is required" 401)
    let id = text_of execution_id
    found ← query env (find_by_id id)
    execution ← require_some found (app_error "Workflow execution not found" 404)
    require (is_processable execution.status)
        (app_error "Only PENDING or RUNNING workflow executions can be processed" 409)
    steps ← query env (find_by_execution_id id)
    require (not (is_empty steps)) (app_error "Workflow execution has no steps to process" 409)
    claim_execution id execution
    let c : Context = record {
      execution_id = id;
      processed_by = processed_by;
      execution = execution;
    }
    safe_register_audit_log env (
        execution_audit c "WORKFLOW_EXECUTION_PROCESS_STARTED"
          (("stepsCount", nat (length steps)) ∷ []))
    process_steps env c [] steps
