-- ===== src/Validators/WorkflowSteps.antt =====
-- src/validators/workflowSteps.validator.js
pub mod Accepted
use Prim.Native.String
use gov_flow.Prelude.{
  String, Bool, false, not, ◌&&◌, ◌||◌, List, [], ◌++◌, ◌==◌, ltb, if◌then◌else◌,
}
use gov_flow.Errors.{FieldError}
use gov_flow.Js.Text.{trim, length_utf16, is_empty_text, is_digit, is_upper, is_dash, is_numeric}
use gov_flow.Js.Value.{Value, undefined, null, num, str, obj, get, is_integer, is_at_most_zero}
use gov_flow.Validators.Common.{
  field_error, required_text, optional_text, optional_object, required_uuid,
}
use gov_flow.Validators.Uuid.{is_valid_uuid}

-- `JIRA_ISSUE_KEY_REGEX`: `/^[A-Z][A-Z0-9]+-\d+$/`
unfoldable pub key_rest : String → Bool
unfolding is_upper is_digit is_dash is_numeric
key_rest String.[] = false
key_rest (String.◌∷◌ c s) =
    let more = key_rest s in if is_dash c then is_numeric s else (is_upper c || is_digit c) && more

unfoldable pub key_second : String → Bool
unfolding key_rest
key_second String.[] = false
key_second (String.◌∷◌ c s) = (is_upper c || is_digit c) && key_rest s

unfoldable pub is_issue_key : String → Bool
unfolding key_second
is_issue_key String.[] = false
is_issue_key (String.◌∷◌ c s) = is_upper c && key_second s

unfoldable pub validate_workflow_id : Value → List FieldError
unfolding required_uuid is_valid_uuid
validate_workflow_id id = required_uuid is_valid_uuid "workflowId" "Workflow ID" id

unfoldable pub validate_name : Value → List FieldError
unfolding required_text trim length_utf16
validate_name name = required_text "name" "Name" 150 "150" name

unfoldable pub validate_description : Value → List FieldError
unfolding optional_text length_utf16
validate_description description = optional_text "description" "Description" 1000 "1000" description

unfoldable pub validate_step_order : Value → List FieldError
validate_step_order undefined = field_error "stepOrder" "Step order is required"
validate_step_order null = field_error "stepOrder" "Step order is required"
validate_step_order (num n) =
    if is_integer n
    then if is_at_most_zero n
      then field_error "stepOrder" "Step order must be greater than 0"
      else []
    else field_error "stepOrder" "Step order must be an integer"
validate_step_order v = field_error "stepOrder" "Step order must be an integer"

-- `VALID_ACTION_TYPES.includes(actionType)`
unfoldable pub is_action_type : String → Bool
is_action_type t =
    t == "MANUAL" || t == "JIRA_TRANSITION" || t == "JIRA_COMMENT" || t == "NOTIFICATION"

unfoldable pub validate_action_type : Value → List FieldError
unfolding is_action_type
validate_action_type undefined = field_error "actionType" "Action type is required"
validate_action_type null = field_error "actionType" "Action type is required"
validate_action_type (str t) =
    if is_action_type t
    then []
    else field_error "actionType"
        "Action type must be one of: MANUAL, JIRA_TRANSITION, JIRA_COMMENT, NOTIFICATION"
validate_action_type v = field_error "actionType" "Action type must be a string"

unfoldable pub validate_configuration : Value → List FieldError
unfolding optional_object
validate_configuration configuration = optional_object "configuration" "Configuration" configuration

unfoldable pub validate_jira_issue_key : Value → List FieldError
unfolding trim length_utf16 is_issue_key
validate_jira_issue_key undefined =
    field_error "configuration.issueKey" "Jira issue key is required"
validate_jira_issue_key null = field_error "configuration.issueKey" "Jira issue key is required"
validate_jira_issue_key (str s) =
    let key = trim s in
    if is_empty_text key
    then field_error "configuration.issueKey" "Jira issue key cannot be empty"
    else if ltb 100 (length_utf16 key)
    then field_error "configuration.issueKey" "Jira issue key must be at most 100 characters"
    else if is_issue_key key
    then []
    else field_error "configuration.issueKey"
        "Jira issue key must be a valid Jira issue key (e.g. ABC-123)"
validate_jira_issue_key v = field_error "configuration.issueKey" "Jira issue key must be a string"

unfoldable pub required_non_empty : String → String → Value → List FieldError
unfolding trim
required_non_empty field label undefined = field_error field (String.◌++◌ label " is required")
required_non_empty field label null = field_error field (String.◌++◌ label " is required")
required_non_empty field label (str s) =
    if is_empty_text (trim s) then field_error field (String.◌++◌ label " cannot be empty") else []
required_non_empty field label v = field_error field (String.◌++◌ label " must be a string")

unfoldable pub comment_length : Value → List FieldError
unfolding length_utf16
comment_length (str s) =
    if ltb 5000 (length_utf16 s)
    then field_error "configuration.comment" "Jira comment must be at most 5000 characters"
    else []
comment_length v = []

unfoldable pub transition_length : Value → List FieldError
unfolding length_utf16
transition_length (str s) =
    if ltb 50 (length_utf16 s)
    then field_error "configuration.transitionId" "Jira transition ID must be at most 50 characters"
    else []
transition_length v = []

unfoldable pub transition_numeric : Value → List FieldError
unfolding trim is_numeric
transition_numeric (str s) =
    if not (is_empty_text (trim s)) && not (is_numeric (trim s))
    then field_error "configuration.transitionId" "Jira transition ID must be numeric"
    else []
transition_numeric v = []

-- `validateJiraCommentFields`, also the whole of `validateJiraCommentConfiguration`
unfoldable pub validate_jira_comment : Value → List FieldError
unfolding validate_jira_issue_key required_non_empty comment_length
validate_jira_comment undefined =
    field_error "configuration" "JIRA_COMMENT configuration is required"
validate_jira_comment null = field_error "configuration" "JIRA_COMMENT configuration is required"
validate_jira_comment (obj fs) =
    validate_jira_issue_key (get "issueKey" (obj fs))
    ++ (required_non_empty "configuration.comment" "Jira comment" (get "comment" (obj fs))
        ++ comment_length (get "comment" (obj fs)))
validate_jira_comment v = []

-- `validateJiraTransitionFields`, also the whole of `validateJiraTransitionConfiguration`
unfoldable pub validate_jira_transition : Value → List FieldError
unfolding validate_jira_issue_key required_non_empty transition_length transition_numeric
validate_jira_transition undefined =
    field_error "configuration" "JIRA_TRANSITION configuration is required"
validate_jira_transition null =
    field_error "configuration" "JIRA_TRANSITION configuration is required"
validate_jira_transition (obj fs) =
    validate_jira_issue_key (get "issueKey" (obj fs))
    ++ (required_non_empty "configuration.transitionId" "Jira transition ID"
          (get "transitionId" (obj fs))
        ++ (transition_length (get "transitionId" (obj fs))
            ++ transition_numeric (get "transitionId" (obj fs))))
validate_jira_transition v = []

unfoldable pub validate_action_configuration : Value → Value → List FieldError
unfolding validate_jira_comment validate_jira_transition
validate_action_configuration (str t) configuration =
    (if t == "JIRA_COMMENT" then validate_jira_comment configuration else [])
    ++ (if t == "JIRA_TRANSITION" then validate_jira_transition configuration else [])
validate_action_configuration v configuration = []

-- The payload of `validateCreateWorkflowStep`.
pub record StepPayload : Type 0 where
  pub name : Value
  pub description : Value
  pub step_order : Value
  pub action_type : Value
  pub configuration : Value

unfoldable pub validate_create_workflow_step : StepPayload → List FieldError
unfolding validate_name validate_description validate_step_order validate_action_type
    validate_configuration validate_action_configuration
validate_create_workflow_step p =
    validate_name p.name
    ++ (validate_description p.description
        ++ (validate_step_order p.step_order
            ++ (validate_action_type p.action_type
                ++ (validate_configuration p.configuration
                    ++ validate_action_configuration p.action_type p.configuration))))
