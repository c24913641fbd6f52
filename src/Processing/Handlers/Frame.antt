-- ===== src/Processing/Handlers/Frame.antt =====
-- The handler of a step writes audit entries and calls Jira, and does nothing else to the database:
-- it keeps whatever relation the writing of an entry and the other actors keep.
use gov_flow.Prelude.{String, Option, none, some}
use gov_flow.Js.Value.{is_nullish}
use gov_flow.Database.{Db, AuditEntry}
use gov_flow.Executions.Repository.{ExecutionDetails}
use gov_flow.Executions.StepRepository.{StepDetails}
use gov_flow.Validators.AuditLogs.{AuditPayload}
use gov_flow.AuditLogs.{register, safe_register_audit_log, insert_entry}
use gov_flow.Jira.Service.{
  assert_jira_integration_ready, require_ready, Readiness, client_unavailable, add_comment_to_issue,
  transition_issue, body_of, accept,
}
use gov_flow.Runtime.{Env, JiraReply, answered, rejected}
use gov_flow.Runtime.Keeps.{
  Keeps, IsRely, OpKeeps, Keeps-pure, Keeps-throw, Keeps-bind, Keeps-try, Keeps-if, Keeps-require,
  Keeps-require_some, Keeps-require_valid, Keeps-call_jira, Keeps-query, Keeps-clock,
}
use gov_flow.Processing.Handlers.{
  run_jira_transition, handle_jira_transition_step, run_jira_comment, handle_jira_comment_step,
  dispatch_step, handle_workflow_step_with_context,
}

pub ruleset flow = (
  Keeps-pure, Keeps-throw, Keeps-bind, Keeps-try, Keeps-if, Keeps-require, Keeps-require_some,
  Keeps-require_valid, Keeps-call_jira, Keeps-query, Keeps-clock,
)

module _ {env : Env} {R : Db → Db → Type 0} (rely : IsRely env R)
    (audit : (entry : AuditEntry) → OpKeeps R (insert_entry entry)) where
  pub safe_register-Keeps : (p : AuditPayload) → Keeps R (safe_register_audit_log env p)
  unfolding safe_register_audit_log register
  safe_register-Keeps p = search (flow, audit, rely) depth 9

  require_ready-Keeps : (r : Option Readiness) → Keeps R (require_ready r)
  require_ready-Keeps none = Keeps-pure rely tt
  require_ready-Keeps (some client_unavailable) = Keeps-throw rely _
  require_ready-Keeps (some _) = Keeps-throw rely _

  body_of-Keeps : (reply : JiraReply) (operation : String) → Keeps R (body_of reply operation)
  body_of-Keeps (answered v) operation =
      Keeps-if rely (is_nullish v) _ _ (Keeps-throw rely _) (Keeps-pure rely v)
  body_of-Keeps (rejected f) operation = Keeps-throw rely _

  accept-Keeps : (reply : JiraReply) (operation : String) → Keeps R (accept reply operation)
  accept-Keeps (answered v) operation = Keeps-pure rely tt
  accept-Keeps (rejected f) operation = Keeps-throw rely _

  add_comment-Keeps : (key comment : String) → Keeps R (add_comment_to_issue env key comment)
  unfolding add_comment_to_issue assert_jira_integration_ready
  add_comment-Keeps key comment = search (flow, require_ready-Keeps, body_of-Keeps, rely) depth 9

  transition-Keeps : (key id : String) → Keeps R (transition_issue env key id)
  unfolding transition_issue assert_jira_integration_ready
  transition-Keeps key id = search (flow, require_ready-Keeps, accept-Keeps, rely) depth 9

  ruleset effects = (flow, safe_register-Keeps, add_comment-Keeps, transition-Keeps)

  transition_step-Keeps :
      (step : StepDetails) (x : ExecutionDetails) → Keeps R (handle_jira_transition_step env step x)
  unfolding handle_jira_transition_step run_jira_transition
  transition_step-Keeps step x = search (effects, rely) depth 12

  comment_step-Keeps :
      (step : StepDetails) (x : ExecutionDetails) → Keeps R (handle_jira_comment_step env step x)
  unfolding handle_jira_comment_step run_jira_comment
  comment_step-Keeps step x = search (effects, rely) depth 12

  pub handler-Keeps :
      (step : StepDetails) (x : ExecutionDetails)
      → Keeps R (handle_workflow_step_with_context env step x)
  unfolding handle_workflow_step_with_context dispatch_step
  handler-Keeps step x = search (flow, transition_step-Keeps, comment_step-Keeps, rely) depth 12
