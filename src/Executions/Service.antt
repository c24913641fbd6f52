-- ===== src/Executions/Service.antt =====
-- src/modules/workflow-executions/workflowExecutions.service.js and
-- src/modules/workflow-execution-steps/workflowExecutionSteps.service.js
pub mod Listed
pub mod Creation
pub mod Denied
use gov_flow.Prelude.{ℕ, String, not, List, [], ◌∷◌, Option, some, is_empty, length, if◌then◌else◌}
use gov_flow.Errors.{FieldError, app_error}
use gov_flow.Js.Value.{Value, str, obj, object, nat, text_of, text_column}
use gov_flow.Database.{Execution, ExecutionStep, status_text}
use gov_flow.Access.{
  Requester, DepartmentScope, or_null_column, assert_can_access_execution,
  resolve_list_department_scope,
}
use gov_flow.Access.Listing.{is_closed, scope_filter}
use gov_flow.AuditLogs.{safe_register_audit_log}
use gov_flow.Validators.Common.{required_uuid}
use gov_flow.Validators.Uuid.{is_execution_uuid}
use gov_flow.Validators.WorkflowExecutions.{
  validate_workflow_id, validate_workflow_execution_id, validate_create_workflow_execution,
  validate_list_workflow_executions_filters,
}
use gov_flow.Runtime.{
  Env, M, pure, ◌>>=◌, ◌>>◌, require, require_some, require_valid, query, statement, transaction,
  new_ids,
}
use gov_flow.Paging.{Page, paging, empty_page, list_page}
use gov_flow.Workflows.Repository.{find_workflow_by_id}
use gov_flow.Workflows.StepRepository.{find_active_steps}
use gov_flow.Executions.Repository.{ExecutionDetails, find_by_id}
use gov_flow.Executions.StepRepository.{StepDetails, find_by_execution_id}
use gov_flow.Executions.Rows.{ExecutionFilters, execution_rows, insert_execution, create_many}

-- The arguments of `listWorkflowExecutions`
pub record ListExecutions : Type 0 where
  pub page : Value
  pub limit : Value
  pub workflow_id : Value
  pub started_by : Value
  pub status : Value
  pub requester : Option Requester

-- `normalizedFilters` under a requester's scope
abbrev pub filters_in : DepartmentScope → ListExecutions → ExecutionFilters
filters_in scope q = record {
  workflow_id = or_null_column (text_column q.workflow_id);
  started_by = or_null_column (text_column q.started_by);
  department_id = scope_filter scope;
  status = or_null_column (text_column q.status);
}

-- `validateExecutionId` of src/validators/workflowExecutionSteps.validator.js
unfoldable pub validate_execution_id : Value → List FieldError
unfolding required_uuid is_execution_uuid
validate_execution_id id = required_uuid is_execution_uuid "executionId" "Workflow execution ID" id

-- The result of the transaction of `createWorkflowExecution`
pub record CreatedExecution : Type 0 where
  pub execution : Execution
  pub steps : List ExecutionStep

-- `{ ...result.execution, execution_steps_count }`
pub record ExecutionSummary : Type 0 where
  pub execution : Execution
  pub execution_steps_count : ℕ

module _ (env : Env) where
  unfoldable pub list_workflow_executions : ListExecutions → M (Page ExecutionDetails)
  unfolding resolve_list_department_scope paging
  list_workflow_executions q = do
    require_valid "Validation failed"
        (validate_list_workflow_executions_filters q.workflow_id q.started_by q.status)
    let p = paging env q.page q.limit
    let scope = resolve_list_department_scope q.requester
    if is_closed scope
        then pure (empty_page p)
        else list_page env (execution_rows (filters_in scope q)) p

  -- `findById`, the 404 and the check of access
  unfoldable pub accessible_execution : String → Option Requester → M ExecutionDetails
  accessible_execution id requester = do
    row ← query env (find_by_id id)
    execution ← require_some row (app_error "Workflow execution not found" 404)
    assert_can_access_execution (some execution.department_id) requester
    pure execution

  unfoldable pub get_workflow_execution_by_id : Value → Option Requester → M ExecutionDetails
  unfolding accessible_execution
  get_workflow_execution_by_id id requester = do
    require_valid "Validation failed" (validate_workflow_execution_id id)
    accessible_execution (text_of id) requester

  unfoldable pub list_workflow_execution_steps : Value → Option Requester → M (List StepDetails)
  unfolding accessible_execution
  list_workflow_execution_steps execution_id requester = do
    require_valid "Validation failed" (validate_execution_id execution_id)
    accessible_execution (text_of execution_id) requester
    query env (find_by_execution_id (text_of execution_id))

  -- The callback of the transaction of `createWorkflowExecution`
  unfoldable pub insert_execution_and_steps : String → Value → String → M CreatedExecution
  insert_execution_and_steps workflow_id input started_by = do
    ids ← new_ids env
    execution ← statement env (insert_execution (ids 0) workflow_id started_by input)
    steps ← statement env (find_active_steps workflow_id)
    require (not (is_empty steps))
        (app_error "Workflow must have at least one active step to be executed" 409)
    step_ids ← new_ids env
    rows ← statement env (create_many step_ids execution.id steps)
    pure (record { execution = execution; steps = rows })

  unfoldable pub create_workflow_execution : Value → Value → Option String → M ExecutionSummary
  unfolding insert_execution_and_steps
  create_workflow_execution workflow_id input started_by = do
    require_valid "Validation failed" (validate_workflow_id workflow_id)
    require_valid "Validation failed" (validate_create_workflow_execution input)
    starter ←
        require_some (or_null_column started_by) (app_error "Authenticated user is required" 401)
    row ← query env (find_workflow_by_id (text_of workflow_id))
    workflow ← require_some row (app_error "Workflow not found" 404)
    require workflow.is_active (app_error "Workflow is inactive" 409)
    created ← transaction env (insert_execution_and_steps (text_of workflow_id) input starter)
    safe_register_audit_log env (record {
      action = str "WORKFLOW_EXECUTION_CREATED";
      entity = str "workflow_execution";
      entity_id = str created.execution.id;
      actor_id = str starter;
      metadata = obj (
          object (
            ("workflowId", str created.execution.workflow_id)
            ∷ ("status", str (status_text created.execution.status))
            ∷ ("executionStepsCount", nat (length created.steps))
            ∷ []));
    })
    pure (record { execution = created.execution; execution_steps_count = length created.steps })
