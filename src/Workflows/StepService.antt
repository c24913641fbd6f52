-- ===== src/Workflows/StepService.antt =====
-- src/modules/workflow-steps/workflowSteps.service.js
use gov_flow.Prelude.{true, not, List, [], ◌∷◌, is_some, if◌then◌else◌}
use gov_flow.Errors.{Error, app_error}
use gov_flow.Js.Text.{trim, trim_column, has_value}
use gov_flow.Js.Value.{Value, str, obj, object, nat, text_of, text_column, nat_of, coalesce, null}
use gov_flow.Database.{WorkflowStep}
use gov_flow.AuditLogs.{safe_register_audit_log}
use gov_flow.Validators.WorkflowSteps.{
  StepPayload, validate_workflow_id, validate_create_workflow_step,
}
use gov_flow.Runtime.{
  Env, M, pure, throw, ◌>>=◌, ◌>>◌, try, require, require_some, require_valid, query, new_ids,
}
use gov_flow.Workflows.Repository.{find_workflow_by_id}
use gov_flow.Workflows.StepRepository.{NewStep, find_steps, find_step_at, insert_step}

-- The handler of `createWorkflowStep`
unfoldable pub create_step_error : Error → Error
create_step_error e =
    if has_value e.code "23505"
    then app_error "Workflow step order already exists for this workflow" 409
    else if has_value e.code "23503"
    then app_error "Workflow not found" 404
    else e

module _ (env : Env) where
  unfoldable pub list_workflow_steps : Value → M (List WorkflowStep)
  list_workflow_steps workflow_id = do
    require_valid "Validation failed" (validate_workflow_id workflow_id)
    row ← query env (find_workflow_by_id (text_of workflow_id))
    require_some row (app_error "Workflow not found" 404)
    query env (find_steps (text_of workflow_id))

  -- The body of the `try` of `createWorkflowStep`
  unfoldable pub insert_and_audit_step : NewStep → Value → M WorkflowStep
  insert_and_audit_step n created_by = do
    ids ← new_ids env
    created ← query env (insert_step (ids 0) n)
    safe_register_audit_log env (record {
      action = str "WORKFLOW_STEP_CREATED";
      entity = str "workflow_step";
      entity_id = str created.id;
      actor_id = created_by;
      metadata = obj (
          object (
            ("workflowId", str created.workflow_id)
            ∷ ("name", str created.name)
            ∷ ("stepOrder", nat created.step_order)
            ∷ ("actionType", str created.action_type)
            ∷ []));
    })
    pure created

  unfoldable pub create_workflow_step : Value → StepPayload → Value → M WorkflowStep
  unfolding trim trim_column insert_and_audit_step create_step_error
  create_workflow_step workflow_id p created_by = do
    require_valid "Validation failed" (validate_workflow_id workflow_id)
    require_valid "Validation failed" (validate_create_workflow_step p)
    row ← query env (find_workflow_by_id (text_of workflow_id))
    require_some row (app_error "Workflow not found" 404)
    existing ← query env (find_step_at (text_of workflow_id) (nat_of p.step_order))
    require (not (is_some existing))
        (app_error "Workflow step order already exists for this workflow" 409)
    try
        (insert_and_audit_step
          (record {
            workflow_id = text_of workflow_id;
            name = trim (text_of p.name);
            description = trim_column (text_column p.description);
            step_order = nat_of p.step_order;
            action_type = text_of p.action_type;
            configuration = coalesce p.configuration null;
            is_active = true;
          })
          created_by)
        (λ error. throw (create_step_error error))
