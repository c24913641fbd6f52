-- ===== src/Processing/Handlers.antt =====
-- src/modules/workflow-processing/workflowStepHandlers.js. A handler returns the step's output.
pub mod Frame
use Prim.Native.String.{◌++◌}
use gov_flow.Prelude.{
  String, Bool, true, ◌&&◌, List, [], ◌∷◌, Option, none, some, ◌==◌, if◌then◌else◌,
}
use gov_flow.Js.Text.{trim}
use gov_flow.Js.Value.{
  Value, undefined, null, bool, str, obj, get, truthy, is_true, or_value, text_of, object, nullable,
  spread, append_fields,
}
use gov_flow.Errors.{plain_error, jira_business_error}
use gov_flow.AuditLogs.{safe_register_audit_log}
use gov_flow.Validators.AuditLogs.{AuditPayload}
use gov_flow.Validators.WorkflowSteps.{validate_jira_comment, validate_jira_transition}
use gov_flow.Executions.Repository.{ExecutionDetails}
use gov_flow.Executions.StepRepository.{StepDetails}
use gov_flow.Jira.Service.{
  CommentResult, add_comment_to_issue, build_execution_step_marker, transition_issue,
}
use gov_flow.Prelude.{is_empty}
use gov_flow.Runtime.{Env, M, Result, ok, err, pure, throw, ◌>>=◌, ◌>>◌, try, require}

unfoldable pub should_simulate_failure : StepDetails → Bool
should_simulate_failure step =
    truthy step.configuration && is_true (get "shouldFail" step.configuration)

-- `buildGovFlowJiraComment`: the lines of a comment
unfoldable pub build_gov_flow_jira_comment : String → String → String → String
unfolding trim build_execution_step_marker
build_gov_flow_jira_comment comment execution_id execution_step_id =
    trim comment
    ++ ("\n\n"
        ++ (build_execution_step_marker execution_step_id
            ++ ("\n" ++ ("GovFlow executionId: " ++ execution_id))))

-- The step's error message: `new Error(value)` turns any value into a text.
abbrev pub failure_text : (Value → String) → Value → String
failure_text to_text (str s) = s
failure_text to_text v = to_text v

-- `value || null`
abbrev pub or_null : Value → Value
or_null v = or_value v null

-- `execution?.id || step.execution_id || null`
abbrev pub execution_id_of : StepDetails → ExecutionDetails → Value
execution_id_of step execution = or_value (str execution.id) (or_null (str step.execution_id))

unfoldable pub build_jira_transition_audit_metadata : StepDetails → ExecutionDetails → Value
build_jira_transition_audit_metadata step execution = obj (
    object (
      ("executionId", execution_id_of step execution)
      ∷ ("executionStepId", str step.id)
      ∷ ("workflowStepId", str step.step_id)
      ∷ ("issueKey", or_null (get "issueKey" step.configuration))
      ∷ ("transitionId", or_null (get "transitionId" step.configuration))
      ∷ ("actionType", str step.action_type)
      ∷ []))

unfoldable pub build_jira_comment_audit_metadata : StepDetails → ExecutionDetails → Value
build_jira_comment_audit_metadata step execution = obj (
    object (
      ("executionId", execution_id_of step execution)
      ∷ ("executionStepId", str step.id)
      ∷ ("workflowStepId", str step.step_id)
      ∷ ("issueKey", or_null (get "issueKey" step.configuration))
      ∷ ("actionType", str step.action_type)
      ∷ []))

-- The audit entry of a step, with an action.
abbrev pub step_audit : String → StepDetails → ExecutionDetails → Value → AuditPayload
step_audit action step execution metadata = record {
  action = str action;
  entity = str "workflow_execution_step";
  entity_id = str step.id;
  actor_id = or_null (nullable execution.started_by);
  metadata = metadata;
}

unfoldable pub simulated_output : StepDetails → String → Value
simulated_output step message = obj (
    object (
      ("simulated", bool true)
      ∷ ("actionType", str step.action_type)
      ∷ ("message", str message)
      ∷ []))

unfoldable pub transition_output : String → String → String → Value
transition_output issue_key transition_id status = obj (
    object (
      ("provider", str "jira")
      ∷ ("operation", str "transition")
      ∷ ("issueKey", str issue_key)
      ∷ ("transitionId", str transition_id)
      ∷ ("status", str status)
      ∷ []))

unfoldable pub comment_output : String → Value → Value
comment_output issue_key comment_id = obj (
    object (
      ("provider", str "jira")
      ∷ ("operation", str "comment")
      ∷ ("issueKey", str issue_key)
      ∷ ("commentId", comment_id)
      ∷ ("status", str "completed")
      ∷ []))

module _ (env : Env) where
  -- The body of the `try` of `handleJiraTransitionStep`
  unfoldable pub run_jira_transition : StepDetails → ExecutionDetails → M Value
  run_jira_transition step execution = do
    require (is_empty (validate_jira_transition step.configuration))
        (jira_business_error "Invalid JIRA_TRANSITION configuration" 400)
    let issue_key = trim (text_of (get "issueKey" step.configuration))
    let transition_id = trim (text_of (get "transitionId" step.configuration))
    status ← transition_issue env issue_key transition_id
    safe_register_audit_log env (
        step_audit "JIRA_TRANSITION_COMPLETED" step execution (
          obj (
            append_fields (spread (build_jira_transition_audit_metadata step execution))
              (object (("issueKey", str issue_key) ∷ ("transitionId", str transition_id) ∷ [])))))
    pure (transition_output issue_key transition_id status)

  unfoldable pub handle_jira_transition_step : StepDetails → ExecutionDetails → M Value
  handle_jira_transition_step step execution = do
    let metadata = build_jira_transition_audit_metadata step execution
    safe_register_audit_log env (step_audit "JIRA_TRANSITION_ATTEMPTED" step execution metadata)
    try (run_jira_transition step execution) λ error. do
      safe_register_audit_log env (step_audit "JIRA_TRANSITION_FAILED" step execution metadata)
      throw error

  -- The body of the `try` of `handleJiraCommentStep`
  unfoldable pub run_jira_comment : StepDetails → ExecutionDetails → M Value
  run_jira_comment step execution = do
    require (is_empty (validate_jira_comment step.configuration))
        (jira_business_error "Invalid JIRA_COMMENT configuration" 400)
    let issue_key = trim (text_of (get "issueKey" step.configuration))
    let comment = text_of (get "comment" step.configuration)
    result ←
        add_comment_to_issue env issue_key
          (build_gov_flow_jira_comment comment (text_of (execution_id_of step execution)) step.id)
    safe_register_audit_log env (
        step_audit "JIRA_COMMENT_COMPLETED" step execution
          (build_jira_comment_audit_metadata step execution))
    pure (comment_output issue_key result.comment_id)

  unfoldable pub handle_jira_comment_step : StepDetails → ExecutionDetails → M Value
  handle_jira_comment_step step execution = do
    let metadata = build_jira_comment_audit_metadata step execution
    safe_register_audit_log env (step_audit "JIRA_COMMENT_ATTEMPTED" step execution metadata)
    try (run_jira_comment step execution) λ error. do
      safe_register_audit_log env (step_audit "JIRA_COMMENT_FAILED" step execution metadata)
      throw error

  -- The `switch` on the action type
  unfoldable pub dispatch_step : StepDetails → ExecutionDetails → M Value
  dispatch_step step execution =
      if step.action_type == "MANUAL"
      then pure (simulated_output step "Manual step completed by processor simulation")
      else if step.action_type == "NOTIFICATION"
      then pure (simulated_output step "Notification step completed by processor simulation")
      else if step.action_type == "JIRA_TRANSITION"
      then handle_jira_transition_step step execution
      else if step.action_type == "JIRA_COMMENT"
      then handle_jira_comment_step step execution
      else throw (plain_error ("Unsupported action type: " ++ step.action_type))

  unfoldable pub failure_message : StepDetails → String
  failure_message step = failure_text env.to_text (
      or_value (get "failureMessage" step.configuration)
        (str ("Simulated failure for action type " ++ step.action_type)))

  unfoldable pub handle_workflow_step_with_context : StepDetails → ExecutionDetails → M Value
  handle_workflow_step_with_context step execution =
      if should_simulate_failure step
      then throw (plain_error (failure_message step))
      else dispatch_step step execution
