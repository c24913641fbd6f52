-- ===== src/Examples/Validators.antt =====
-- The theorems on the validators, at concrete payloads.
use gov_flow.Prelude.{String, true, ◌≡◌, refl, []}
use gov_flow.Js.Value.{null, num, str, whole, pos}
use gov_flow.Validators.Uuid.{is_execution_uuid, is_valid_uuid}
use gov_flow.Validators.Uuid.Strict.{is_execution_uuid-is_valid_uuid}
use gov_flow.Validators.WorkflowSteps.{StepPayload, validate_create_workflow_step}
use gov_flow.Validators.WorkflowSteps.Accepted.{
  IsRunnable, validate_create_workflow_step-IsRunnable,
}
use gov_flow.Examples.World.{execution_id, comment_configuration}

id_accepted : is_execution_uuid execution_id ≡ true
unfolding is_execution_uuid
id_accepted = refl

is_execution_uuid-is_valid_uuid_example : is_valid_uuid execution_id ≡ true
is_execution_uuid-is_valid_uuid_example = is_execution_uuid-is_valid_uuid execution_id id_accepted

abbrev comment_payload : StepPayload
comment_payload = record {
  name = str "Tell Jira";
  description = null;
  step_order = num (whole (pos 2));
  action_type = str "JIRA_COMMENT";
  configuration = comment_configuration;
}

comment_accepted : validate_create_workflow_step comment_payload ≡ []
unfolding validate_create_workflow_step
comment_accepted = refl

validate_create_workflow_step-IsRunnable_example :
    (t : String) × (comment_payload.action_type ≡ str t)
    × IsRunnable t comment_payload.configuration
validate_create_workflow_step-IsRunnable_example =
    validate_create_workflow_step-IsRunnable comment_payload comment_accepted
