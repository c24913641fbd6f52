-- ===== src/Workflows/Service.antt =====
-- src/modules/workflows/workflows.service.js and `duplicate` of
-- src/modules/workflows/workflows.repository.js
pub mod Listed
pub mod Copy
pub mod Denied
pub mod Readback
use Prim.Native.String
use gov_flow.Prelude.{
  String, Bool, true, false, not, ◌&&◌, ◌||◌, List, [], ◌∷◌, Option, none, some, is_some, ◌==◌,
  if◌then◌else◌,
}
use gov_flow.Errors.{Error, app_error, plain_error}
use gov_flow.Js.Text.{trim, trim_column, has_value, is_empty_text}
use gov_flow.Js.Value.{
  Value, undefined, null, bool, str, obj, object, nullable, is_true, text_of, text_column,
}
use gov_flow.Database.{Workflow, WorkflowStep}
use gov_flow.Access.{
  Requester, DepartmentScope, has_text, same_column, or_null_column, assert_can_access_workflow,
  assert_can_create_in_department, resolve_list_department_scope,
}
use gov_flow.Access.Listing.{is_closed}
use gov_flow.AuditLogs.{safe_register_audit_log}
use gov_flow.Validators.Workflows.{
  WorkflowPayload, validate_create_workflow, validate_update_workflow,
  validate_list_workflows_filters, validate_workflow_id, validate_name,
}
use gov_flow.Runtime.{
  Env, M, ok, pure, throw, ◌>>=◌, ◌>>◌, try, require, require_some, require_valid, query, statement,
  transaction, new_ids,
}
use gov_flow.Paging.{Page, paging, empty_page, list_page}
use gov_flow.Workflows.Repository.{
  WorkflowDetails, WorkflowFilters, NewWorkflow, workflow_rows, find_workflow_by_id,
  insert_workflow, update_workflow, find_department,
}
use gov_flow.Workflows.StepRepository.{NewStep, find_steps, insert_step}

-- The arguments of `listWorkflows`
pub record ListWorkflows : Type 0 where
  pub page : Value
  pub limit : Value
  pub department_id : Value
  pub created_by : Value
  pub is_active : Value
  pub requester : Option Requester

-- `isActive === "true"`, or null where there is no text to compare
abbrev pub active_filter : Value → Option Bool
active_filter undefined = none
active_filter null = none
active_filter (str s) = if is_empty_text s then none else some (s == "true")
active_filter v = some false

-- `normalizedFilters`, before the requester's scope
abbrev pub filters_of : ListWorkflows → WorkflowFilters
filters_of q = record {
  department_id = or_null_column (text_column q.department_id);
  created_by = or_null_column (text_column q.created_by);
  is_active = active_filter q.is_active;
}

-- The scope has no department, or another one than the filter.
abbrev pub excludes_all : DepartmentScope → Option String → Bool
excludes_all scope filter =
    is_closed scope
    || scope.scoped && has_text filter && not (same_column filter scope.department_id)

abbrev pub scoped_filters : DepartmentScope → WorkflowFilters → WorkflowFilters
scoped_filters scope f =
    if scope.scoped then record f { department_id = scope.department_id } else f

-- `row && { department_id: row.department_id }`, what the access checks read
abbrev pub department_of_row : Option WorkflowDetails → Option (Option String)
department_of_row none = none
department_of_row (some w) = some w.department_id

abbrev pub id_of_requester : Option Requester → Value
id_of_requester none = undefined
id_of_requester (some r) = str r.id

-- `requester.id`, where there is one that is no empty text
abbrev pub requester_id : Option Requester → Option String
requester_id none = none
requester_id (some r) = or_null_column (some r.id)

-- The handler of `createWorkflow`
unfoldable pub create_workflow_error : Error → Error
create_workflow_error e =
    if has_value e.code "23503"
    then app_error "Department not found" 404
    else if has_value e.code "23505" && has_value e.constraint "workflows_department_id_name_key"
    then app_error "Workflow already exists in this department" 409
    else e

-- A step as `duplicate` writes it again under another workflow
abbrev pub copy_of : String → WorkflowStep → NewStep
copy_of workflow_id s = record {
  workflow_id = workflow_id;
  name = s.name;
  description = s.description;
  step_order = s.step_order;
  action_type = s.action_type;
  configuration = s.configuration;
  is_active = s.is_active;
}

-- `providedName || `${sourceWorkflow.name} (copy)``
unfoldable pub duplicate_name : Value → String → String
unfolding trim
duplicate_name (str s) source =
    if is_empty_text (trim s) then String.◌++◌ source " (copy)" else trim s
duplicate_name v source = String.◌++◌ source " (copy)"

module _ (env : Env) where
  unfoldable pub list_workflows : ListWorkflows → M (Page WorkflowDetails)
  unfolding resolve_list_department_scope paging
  list_workflows q = do
    require_valid "Validation failed"
        (validate_list_workflows_filters q.department_id q.created_by q.is_active)
    let p = paging env q.page q.limit
    let scope = resolve_list_department_scope q.requester
    if excludes_all scope (filters_of q).department_id
        then pure (empty_page p)
        else list_page env (workflow_rows (scoped_filters scope (filters_of q))) p

  -- `findById`, the 404 and the check of access
  unfoldable pub accessible_workflow : String → Option Requester → M WorkflowDetails
  accessible_workflow id requester = do
    row ← query env (find_workflow_by_id id)
    workflow ← require_some row (app_error "Workflow not found" 404)
    assert_can_access_workflow (some workflow.department_id) requester
    pure workflow

  unfoldable pub get_workflow_by_id : String → Option Requester → M WorkflowDetails
  unfolding accessible_workflow
  get_workflow_by_id id requester = do
    require_valid "Invalid workflow ID" (validate_workflow_id id)
    accessible_workflow id requester

  -- `if (departmentId) { … }`
  unfoldable pub require_department : Option String → M (Unit {0})
  require_department none = pure tt
  require_department (some id) = do
    found ← query env (λ now d. ok (is_some (find_department id d), d))
    require found (app_error "Department not found" 404)

  -- The body of the `try` of `createWorkflow`
  unfoldable pub insert_and_audit_workflow : NewWorkflow → String → M Workflow
  insert_and_audit_workflow n created_by = do
    ids ← new_ids env
    created ← query env (insert_workflow (ids 0) n)
    safe_register_audit_log env (record {
      action = str "WORKFLOW_CREATED";
      entity = str "workflow";
      entity_id = str created.id;
      actor_id = str created_by;
      metadata = obj (
          object
            (("name", str created.name) ∷ ("departmentId", nullable created.department_id) ∷ []));
    })
    pure created

  unfoldable pub create_workflow :
      WorkflowPayload → (created_by : Option String) → Option Requester → M Workflow
  unfolding trim trim_column insert_and_audit_workflow require_department create_workflow_error
  create_workflow p created_by requester = do
    require_valid "Validation failed" (validate_create_workflow p)
    creator ←
        require_some (or_null_column created_by) (app_error "Authenticated user is required" 401)
    let department_id = or_null_column (text_column p.department_id)
    assert_can_create_in_department (text_column p.department_id) requester
    require_department department_id
    try
        (insert_and_audit_workflow
          (record {
            name = trim (text_of p.name);
            description = trim_column (text_column p.description);
            department_id = department_id;
            created_by = some creator;
            is_active = true;
          })
          creator)
        (λ error. throw (create_workflow_error error))

  unfoldable pub update_workflow_active : String → Value → Option Requester → M Workflow
  unfolding accessible_workflow
  update_workflow_active id is_active requester = do
    require_valid "Invalid workflow ID" (validate_workflow_id id)
    require_valid "Validation failed" (validate_update_workflow is_active)
    accessible_workflow id requester
    row ← query env (update_workflow id (is_true is_active))
    changed ← require_some row (plain_error "Cannot read properties of undefined")
    safe_register_audit_log env (record {
      action = str "WORKFLOW_UPDATED";
      entity = str "workflow";
      entity_id = str changed.id;
      actor_id = id_of_requester requester;
      metadata = obj (object (("isActive", bool changed.is_active) ∷ []));
    })
    pure changed

  -- The loop of `duplicate`
  unfoldable pub copy_steps : String → List WorkflowStep → M (Unit {0})
  copy_steps workflow_id [] = pure tt
  copy_steps workflow_id (s ∷ rest) = do
    ids ← new_ids env
    statement env (insert_step (ids 0) (copy_of workflow_id s))
    copy_steps workflow_id rest

  -- The callback of the transaction of `duplicate`
  unfoldable pub duplicate_body : String → NewWorkflow → M Workflow
  unfolding copy_steps
  duplicate_body source_id n = do
    ids ← new_ids env
    created ← statement env (insert_workflow (ids 0) n)
    steps ← statement env (find_steps source_id)
    copy_steps created.id steps
    pure created

  unfoldable pub duplicate : String → NewWorkflow → M Workflow
  unfolding duplicate_body
  duplicate source_id n = transaction env (duplicate_body source_id n)

  -- The checks of `duplicateWorkflow`: the source and the row that the copy gets.
  unfoldable pub prepare_duplicate :
      String → Value → Option Requester → M (WorkflowDetails × NewWorkflow)
  unfolding accessible_workflow duplicate_name
  prepare_duplicate id name requester = do
    require_valid "Invalid workflow ID" (validate_workflow_id id)
    source ← accessible_workflow id requester
    creator ← require_some (requester_id requester) (app_error "Authenticated user is required" 401)
    require_valid "Validation failed" (validate_name (str (duplicate_name name source.name)))
    pure (
      source,
      record {
        name = duplicate_name name source.name;
        description = source.description;
        department_id = source.department_id;
        created_by = some creator;
        is_active = false;
      },
    )

  unfoldable pub duplicate_workflow : String → Value → Option Requester → M Workflow
  unfolding prepare_duplicate duplicate
  duplicate_workflow id name requester = do
    prepared ← prepare_duplicate id name requester
    let source = prepared.0
    created ← duplicate source.id prepared.1
    safe_register_audit_log env (record {
      action = str "WORKFLOW_DUPLICATED";
      entity = str "workflow";
      entity_id = str created.id;
      actor_id = nullable prepared.1.created_by;
      metadata =
          obj
            (object (("sourceWorkflowId", str source.id) ∷ ("newWorkflowId", str created.id) ∷ []));
    })
    pure created
