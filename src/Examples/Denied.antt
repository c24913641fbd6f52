-- ===== src/Examples/Denied.antt =====
-- The theorems on requests that are denied: the head of another department asks.
use gov_flow.Prelude.{String, [], ◌∷◌, Option, none, some, false, true, ◌≡◌, refl, sym, ap, or_else}
use gov_flow.Js.Text.{to_lower_case}
use gov_flow.Validators.Uuid.{is_versioned_uuid}
use gov_flow.Js.Value.{bool, str, undefined}
use gov_flow.Errors.{app_error}
use gov_flow.Database.{Execution, Workflow, manager}
use gov_flow.Database.Table.{lookup}
use gov_flow.Access.{Requester, can_access}
use gov_flow.Access.Denied.{IsDenied}
use gov_flow.Runtime.{World}
use gov_flow.Validators.Workflows.{validate_workflow_id, validate_update_workflow}
use gov_flow.Validators.WorkflowExecutions.{validate_workflow_execution_id}
use gov_flow.Executions.Repository.{find_execution, find_workflow, department_of}
use gov_flow.Executions.Service.{
  validate_execution_id, get_workflow_execution_by_id, list_workflow_execution_steps,
}
use gov_flow.Executions.Service.Denied.{execution_requests-IsDenied}
use gov_flow.Workflows.Service.{get_workflow_by_id, update_workflow_active, duplicate_workflow}
use gov_flow.Workflows.Service.Denied.{workflow_requests-IsDenied}
use gov_flow.Examples.World.{quiet, quiet-IsQuiet, pending_world, execution_id, admin_id}

abbrev head_of_d2 : Option Requester
head_of_d2 = some (record { id = admin_id; role = manager; department_id = some "d2" })

foreign_execution :
    (x : Execution)
    → find_execution execution_id pending_world.db ≡ some x
    → can_access (some (department_of (find_workflow x.workflow_id pending_world.db))) head_of_d2
      ≡ false
unfolding lookup can_access to_lower_case
foreign_execution x e =
    ap
      (λ (o : Option Execution).
        can_access (some (department_of (find_workflow (or_else o x).workflow_id pending_world.db)))
          head_of_d2)
      (sym e)

valid_execution_id : validate_workflow_execution_id (str execution_id) ≡ []
unfolding validate_workflow_execution_id
valid_execution_id = refl

valid_steps_id : validate_execution_id (str execution_id) ≡ []
unfolding validate_execution_id
valid_steps_id = refl

execution_requests-IsDenied_example :
    IsDenied
      (app_error "Workflow execution not found" 404)
      (get_workflow_execution_by_id quiet (str execution_id) head_of_d2)
      pending_world
    × IsDenied
        (app_error "Workflow execution not found" 404)
        (list_workflow_execution_steps quiet (str execution_id) head_of_d2)
        pending_world
execution_requests-IsDenied_example =
    execution_requests-IsDenied (str execution_id) head_of_d2 quiet pending_world quiet-IsQuiet
      foreign_execution valid_execution_id valid_steps_id

abbrev workflow_id : String
workflow_id = "0c0c0c0c-0c0c-4c0c-8c0c-0c0c0c0c0c0c"

abbrev permit : Workflow
permit = record {
  id = workflow_id;
  name = "Permit";
  description = none;
  department_id = some "d1";
  created_by = some admin_id;
  is_active = true;
  created_at = 0;
}

abbrev permit_world : World
permit_world = record pending_world { db = record pending_world.db { workflows = permit ∷ [] } }

foreign_workflow :
    (x : Workflow)
    → find_workflow workflow_id permit_world.db ≡ some x
    → can_access (some x.department_id) head_of_d2 ≡ false
unfolding lookup can_access to_lower_case
foreign_workflow x e =
    ap (λ (o : Option Workflow). can_access (some (or_else o x).department_id) head_of_d2) (sym e)

valid_workflow_id : validate_workflow_id workflow_id ≡ []
unfolding validate_workflow_id is_versioned_uuid
valid_workflow_id = refl

valid_update : validate_update_workflow (bool true) ≡ []
unfolding validate_update_workflow
valid_update = refl

workflow_requests-IsDenied_example :
    IsDenied
      (app_error "Workflow not found" 404)
      (get_workflow_by_id quiet workflow_id head_of_d2)
      permit_world
    × IsDenied
        (app_error "Workflow not found" 404)
        (update_workflow_active quiet workflow_id (bool true) head_of_d2)
        permit_world
    × IsDenied
        (app_error "Workflow not found" 404)
        (duplicate_workflow quiet workflow_id undefined head_of_d2)
        permit_world
workflow_requests-IsDenied_example =
    workflow_requests-IsDenied workflow_id head_of_d2 quiet permit_world quiet-IsQuiet
      foreign_workflow valid_workflow_id (bool true) undefined valid_update
