-- ===== src/Validators/Workflows.antt =====
-- src/validators/workflows.validator.js
use Prim.Native.String
use gov_flow.Prelude.{String, Bool, ◌||◌, List, [], ◌++◌, ◌==◌, if◌then◌else◌}
use gov_flow.Errors.{FieldError}
use gov_flow.Js.Text.{is_empty_text}
use gov_flow.Js.Value.{Value, undefined, null, bool, str}
use gov_flow.Validators.Common.{field_error, required_text, optional_text, optional_uuid}
use gov_flow.Validators.Uuid.{is_versioned_uuid}

pub record WorkflowPayload : Type 0 where
  pub name : Value
  pub description : Value
  pub department_id : Value

unfoldable pub validate_name : Value → List FieldError
unfolding required_text
validate_name name = required_text "name" "Name" 150 "150" name

unfoldable pub validate_description : Value → List FieldError
unfolding optional_text
validate_description description = optional_text "description" "Description" 1000 "1000" description

unfoldable pub validate_create_workflow : WorkflowPayload → List FieldError
unfolding validate_name validate_description optional_uuid
validate_create_workflow p =
    validate_name p.name
    ++ (validate_description p.description
        ++ optional_uuid is_versioned_uuid "departmentId" "Department ID" p.department_id)

-- `value === "" || ["true", "false"].includes(value)`
unfoldable pub is_boolean_text : String → Bool
is_boolean_text s = is_empty_text s || s == "true" || s == "false"

-- `validateOptionalBooleanString`
unfoldable pub optional_boolean_string : String → Value → List FieldError
unfolding is_boolean_text
optional_boolean_string field undefined = []
optional_boolean_string field null = []
optional_boolean_string field (str s) =
    if is_boolean_text s
    then []
    else field_error field (String.◌++◌ field " must be either true or false")
optional_boolean_string field v =
    field_error field (String.◌++◌ field " must be either true or false")

unfoldable pub validate_list_workflows_filters : Value → Value → Value → List FieldError
unfolding optional_uuid optional_boolean_string
validate_list_workflows_filters department_id created_by is_active =
    optional_uuid is_versioned_uuid "departmentId" "Department ID" department_id
    ++ (optional_uuid is_versioned_uuid "createdBy" "Created by" created_by
        ++ optional_boolean_string "isActive" is_active)

unfoldable pub validate_is_active : Value → List FieldError
validate_is_active undefined = field_error "is_active" "is_active is required"
validate_is_active null = field_error "is_active" "is_active is required"
validate_is_active (bool b) = []
validate_is_active v = field_error "is_active" "is_active must be a boolean"

unfoldable pub validate_update_workflow : Value → List FieldError
unfolding validate_is_active
validate_update_workflow is_active = validate_is_active is_active

-- `validateWorkflowId`; a path parameter is a text
unfoldable pub validate_workflow_id : String → List FieldError
validate_workflow_id id =
    if is_versioned_uuid id then [] else field_error "id" "Id must be a valid UUID"
