-- ===== src/Validators/WorkflowExecutions.antt =====
-- src/validators/workflowExecutions.validator.js
use Prim.Native.String
use gov_flow.Prelude.{
  ℕ, String, Bool, not, ◌||◌, List, [], ◌++◌, Option, none, some, ◌==◌, if◌then◌else◌,
}
use gov_flow.Errors.{FieldError}
use gov_flow.Js.Text.{is_empty_text}
use gov_flow.Js.Value.{Value, undefined, null, num, str, is_integer, is_at_most_zero, exceeds}
use gov_flow.Validators.Common.{field_error, optional_object, required_uuid, optional_uuid}
use gov_flow.Validators.Uuid.{is_execution_uuid}

unfoldable pub validate_create_workflow_execution : Value → List FieldError
unfolding optional_object
validate_create_workflow_execution input = optional_object "input" "Input" input

unfoldable pub validate_workflow_id : Value → List FieldError
unfolding required_uuid is_execution_uuid
validate_workflow_id id = required_uuid is_execution_uuid "workflowId" "Workflow ID" id

unfoldable pub validate_workflow_execution_id : Value → List FieldError
unfolding required_uuid is_execution_uuid
validate_workflow_execution_id id = required_uuid is_execution_uuid "id" "Workflow execution ID" id

abbrev pub max_recovery_limit : ℕ
max_recovery_limit = 100

-- `validateOptionalPositiveInteger`; the bound comes with its text
unfoldable pub positive_integer : String → String → Option (ℕ × String) → Value → List FieldError
positive_integer field label max undefined = []
positive_integer field label max null = []
positive_integer field label max (num n) =
    if not (is_integer n) || is_at_most_zero n
    then field_error field (String.◌++◌ label " must be a positive integer")
    else elim max [
      | none ↦ []
      | some (m, text) ↦
          if exceeds n m
          then field_error field (String.◌++◌ label (String.◌++◌ " must be at most " text))
          else []
    ]
positive_integer field label max (str s) =
    if is_empty_text s
    then []
    else field_error field (String.◌++◌ label " must be a positive integer")
positive_integer field label max v =
    field_error field (String.◌++◌ label " must be a positive integer")

unfoldable pub validate_recover_stale_running : Value → Value → List FieldError
unfolding positive_integer
validate_recover_stale_running timeout_minutes limit =
    positive_integer "timeoutMinutes" "Timeout minutes" none timeout_minutes
    ++ positive_integer "limit" "Limit" (some (max_recovery_limit, "100")) limit

unfoldable pub is_status : String → Bool
is_status s =
    s == "PENDING" || s == "RUNNING" || s == "COMPLETED" || s == "FAILED" || s == "CANCELED"

unfoldable pub validate_optional_status : Value → List FieldError
unfolding is_status
validate_optional_status undefined = []
validate_optional_status null = []
validate_optional_status (str s) =
    if is_empty_text s || is_status s
    then []
    else field_error "status" "Status must be one of: PENDING, RUNNING, COMPLETED, FAILED, CANCELED"
validate_optional_status v =
    field_error "status" "Status must be one of: PENDING, RUNNING, COMPLETED, FAILED, CANCELED"

unfoldable pub validate_list_workflow_executions_filters : Value → Value → Value → List FieldError
unfolding optional_uuid is_execution_uuid validate_optional_status
validate_list_workflow_executions_filters workflow_id started_by status =
    optional_uuid is_execution_uuid "workflowId" "Workflow ID" workflow_id
    ++ (optional_uuid is_execution_uuid "startedBy" "Started by" started_by
        ++ validate_optional_status status)
