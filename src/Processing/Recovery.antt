-- ===== src/Processing/Recovery.antt =====
-- src/modules/workflow-processing/workflowExecutionRecovery.service.js
pub mod Evolution
pub mod Told
pub mod Rows
pub mod Bounds
pub mod Values
unfoldable pub use Values.*
use Prim.Native.Nat.{min}
use Prim.Native.String.{◌++◌}
use gov_flow.Prelude.{
  ℕ, zero, suc, String, Bool, true, false, not, ◌&&◌, List, [], ◌∷◌, map, Option, none, some, ◌==◌,
  if◌then◌else◌, length, select, or_else,
}
use mathlib.Core.List
use gov_flow.Js.Text.{trim}
use gov_flow.Js.Value.{
  Value, null, bool, num, str, arr, obj, whole, pos, get, truthy, items, object, nat, spread,
  append_fields,
}
use gov_flow.Errors.{Error, ErrorClass, race_lost, plain_error, app_error}
use gov_flow.Database.{
  Execution, ExecutionStep, ExecutionStatus, StepStatus, completed, status_text, is_step_running,
}
use gov_flow.Validators.AuditLogs.{AuditPayload}
use gov_flow.Validators.WorkflowExecutions.{validate_recover_stale_running, max_recovery_limit}
use gov_flow.Executions.Repository.{find_stale_running, fail_stale_running}
use gov_flow.Executions.StepRepository.{
  StepDetails, find_by_execution_id, update_status, fail_running_by_execution_id,
}
use gov_flow.AuditLogs.{safe_register_audit_log}
use gov_flow.Jira.Service.{FoundComment, find_comment_by_execution_step_marker}
use gov_flow.Runtime.{
  Env, M, Result, ok, err, pure, throw, ◌>>=◌, ◌>>◌, try, require, require_some, require_valid,
  query, statement, transaction, clock,
}
use gov_flow.Processing.Processor.{idempotency_key}

module _ (env : Env) where
  -- The loop of `findRemoteRecoveredStepOutputsById`
  unfoldable pub look_up_steps : List StepDetails → M (List RecoveredStep)
  look_up_steps [] = pure []
  look_up_steps (step ∷ rest) = do
    key ← trim_value (get "issueKey" step.configuration)
    found ← find_comment_by_execution_step_marker env key step.id
    later ← look_up_steps rest
    pure (elim found [
      | none ↦ later
      | some c ↦
          record {
            execution_step_id = step.id;
            step_id = step.step_id;
            output = recovered_output step c;
          }
          ∷ later
    ])

  unfoldable pub find_remote_recovered_step_outputs_by_id : String → M (List RecoveredStep)
  find_remote_recovered_step_outputs_by_id execution_id = do
    steps ← query env (find_by_execution_id execution_id)
    look_up_steps (select may_be_recovered steps)

  -- One failed step: it stays failed, or its comment was found and it is completed.
  abbrev pub sort_failed_step : Option RecoveredStep → ExecutionStep → M Sorted → M Sorted
  sort_failed_step none step rest = do
    later ← rest
    pure (record later { failed_steps = step ∷ later.failed_steps })
  sort_failed_step (some r) step rest = do
    now ← clock env
    row ← statement env (
        update_status step.id (record {
          status = completed;
          completed_at = some now;
          error_message = none;
          output = r.output;
        }))
    done ← require_some row (plain_error "Cannot read properties of undefined")
    later ← rest
    pure (record later {
      recovered_steps =
          record { execution_step_id = done.id; step_id = done.step_id; output = r.output }
          ∷ later.recovered_steps;
    })

  -- `for (const failedStep of failedSteps)`
  unfoldable pub sort_failed_steps : List RecoveredStep → List ExecutionStep → M Sorted
  sort_failed_steps recovered [] = pure (record { failed_steps = []; recovered_steps = [] })
  sort_failed_steps recovered (step ∷ rest) =
      sort_failed_step (lookup_recovered step.id recovered) step (sort_failed_steps recovered rest)

  unfoldable pub recovery_result : Value → ℕ → Execution → ℕ → Sorted → Value
  recovery_result recovered_by timeout execution now steps = obj (
      append_fields (spread execution.result) (
        object (
          ("recoveryReason", str recovery_reason)
          ∷ ("recoveredBy", recovered_by)
          ∷ ("recoveredAt", str (env.to_iso_string now))
          ∷ ("timeoutMinutes", nat timeout)
          ∷ ("previousStatus", str (status_text execution.status))
          ∷ ("failedRunningSteps", arr (items (map failed_entry steps.failed_steps)))
          ∷ ("recoveredRunningSteps", arr (items (map recovered_entry steps.recovered_steps)))
          ∷ [])))

  -- The callback of `database.transaction`
  unfoldable pub recover_in_transaction : Value → ℕ → List RecoveredStep → Execution → M Recovery
  recover_in_transaction recovered_by timeout recovered execution = do
    failed_steps ← statement env (fail_running_by_execution_id execution.id recovery_reason)
    steps ← sort_failed_steps recovered failed_steps
    now ← clock env
    row ← statement env (
        fail_stale_running execution.id timeout
          (recovery_result recovered_by timeout execution now steps))
    x ← require_some row race_lost_error
    pure (record { execution = x; steps = steps })

  -- `none` where another actor finalized the execution first
  unfoldable pub attempt_recovery : Value → ℕ → Execution → M (Option Recovery)
  attempt_recovery recovered_by timeout execution = do
    recovered ← find_remote_recovered_step_outputs_by_id execution.id
    try
        (transaction env (recover_in_transaction recovered_by timeout recovered execution) >>= λ r.
          pure (some r))
        λ error. if is_race_lost error.class then pure none else throw error

  unfoldable pub audit_recovered_steps : Value → String → List RecoveredStep → M (Unit {0})
  audit_recovered_steps recovered_by workflow_id [] = pure tt
  audit_recovered_steps recovered_by workflow_id (r ∷ rest) = do
    safe_register_audit_log env (record {
      action = str "WORKFLOW_EXECUTION_STEP_RECOVERED_VIA_JIRA_LOOKUP";
      entity = str "workflow_execution_step";
      entity_id = str r.execution_step_id;
      actor_id = recovered_by;
      metadata = obj (
          object (
            ("workflowId", str workflow_id)
            ∷ ("stepId", str r.step_id)
            ∷ ("output", r.output)
            ∷ []));
    })
    audit_recovered_steps recovered_by workflow_id rest

  unfoldable pub audit_recovery : Value → ℕ → Recovery → M (Unit {0})
  audit_recovery recovered_by timeout r = do
    safe_register_audit_log env (record {
      action = str "WORKFLOW_EXECUTION_RECOVERY_FAILED";
      entity = str "workflow_execution";
      entity_id = str r.execution.id;
      actor_id = recovered_by;
      metadata = obj (
          object (
            ("workflowId", str r.execution.workflow_id)
            ∷ ("recoveryReason", str recovery_reason)
            ∷ ("timeoutMinutes", nat timeout)
            ∷ ("failedRunningStepsCount", nat (length r.steps.failed_steps))
            ∷ ("recoveredRunningStepsCount", nat (length r.steps.recovered_steps))
            ∷ []));
    })
    audit_recovered_steps recovered_by r.execution.workflow_id r.steps.recovered_steps

  abbrev pub after_attempt :
      Value → ℕ → Option Recovery → M (List RecoveredExecution) → M (List RecoveredExecution)
  after_attempt recovered_by timeout none rest = rest
  after_attempt recovered_by timeout (some r) rest = do
    audit_recovery recovered_by timeout r
    later ← rest
    pure (summary_of r ∷ later)

  -- `for (const execution of staleExecutions)`
  unfoldable pub recover_each : Value → ℕ → List Execution → M (List RecoveredExecution)
  recover_each recovered_by timeout [] = pure []
  recover_each recovered_by timeout (execution ∷ rest) = do
    attempt ← attempt_recovery recovered_by timeout execution
    after_attempt recovered_by timeout attempt (recover_each recovered_by timeout rest)

  unfoldable pub recover_stale_running_executions : Value → Value → Value → M RecoverySummary
  recover_stale_running_executions recovered_by timeout_minutes limit = do
    require_valid "Validation failed" (validate_recover_stale_running timeout_minutes limit)
    let timeout : ℕ = resolve_timeout_minutes env.running_timeout_minutes timeout_minutes
    stale ← query env (find_stale_running timeout (resolve_limit limit))
    recovered ← recover_each recovered_by timeout stale
    pure (record {
      timeout_minutes = timeout;
      scanned_count = length stale;
      recovered_count = length recovered;
      recovered_executions = recovered;
    })
