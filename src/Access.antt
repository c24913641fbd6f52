-- ===== src/Access.antt =====
-- src/modules/workflow-executions/workflowExecutionAccess.js,
-- src/modules/workflows/workflowsAccess.js and src/middlewares/role.middleware.js: who may see and
-- change what.
pub mod Denied
pub mod Scope
pub mod Listing
use gov_flow.Prelude.{
  ℕ, String, Bool, true, false, not, ◌&&◌, List, [], ◌∷◌, Option, none, some, ◌==◌, is_empty,
  if◌then◌else◌,
}
use gov_flow.Js.Text.{is_empty_text}
use gov_flow.Errors.{Error, app_error}
use gov_flow.Database.{Role, admin, manager, operator}
use gov_flow.Runtime.{M, pure, throw, require}

-- `req.user`, as far as access goes.
pub record Requester : Type 0 where
  pub id : String
  pub role : Role
  pub department_id : Option String

-- `Boolean(department_id)`
abbrev pub has_text : Option String → Bool
has_text none = false
has_text (some s) = not (is_empty_text s)

-- `a === b` on two columns that may be NULL
abbrev pub same_column : Option String → Option String → Bool
same_column none none = true
same_column none (some b) = false
same_column (some a) none = false
same_column (some a) (some b) = a == b

abbrev pub can_access_as : Role → Option String → Option String → Bool
can_access_as admin own target = true
can_access_as manager own target = has_text own && same_column target own
can_access_as operator own target = false

-- `canAccessExecution` and `canAccessWorkflow`, on the `department_id` of a row that may be missing
unfoldable pub can_access : Option (Option String) → Option Requester → Bool
can_access none requester = false
can_access (some target) none = false
can_access (some target) (some r) = can_access_as r.role r.department_id target

unfoldable pub assert_can_access_execution :
    Option (Option String) → Option Requester → M (Unit {0})
assert_can_access_execution row requester =
    require (can_access row requester) (app_error "Workflow execution not found" 404)

unfoldable pub assert_can_access_workflow : Option (Option String) → Option Requester → M (Unit {0})
assert_can_access_workflow row requester =
    require (can_access row requester) (app_error "Workflow not found" 404)

-- `value || null` on a column
abbrev pub or_null_column : Option String → Option String
or_null_column none = none
or_null_column (some s) = if is_empty_text s then none else some s

unfoldable pub assert_can_create_in_department : Option String → Option Requester → M (Unit {0})
assert_can_create_in_department department_id requester =
    require (can_access (some (or_null_column department_id)) requester)
      (app_error "Department not found" 404)

pub record DepartmentScope : Type 0 where
  pub scoped : Bool
  pub department_id : Option String

unfoldable pub resolve_list_department_scope : Option Requester → DepartmentScope
resolve_list_department_scope none = record { scoped = true; department_id = none }
resolve_list_department_scope (some r) = elim r.role [
  | admin ↦ record { scoped = false; department_id = none }
  | manager ↦ record { scoped = true; department_id = or_null_column r.department_id }
  | operator ↦ record { scoped = true; department_id = none }
]

abbrev pub same_role : Role → Role → Bool
same_role admin admin = true
same_role manager manager = true
same_role operator operator = true
same_role a b = false

-- `allowedRoles.includes(role)`
unfoldable pub includes_role : List Role → Role → Bool
includes_role [] r = false
includes_role (a ∷ rest) r = if same_role a r then true else includes_role rest r

-- `roleMiddleware(allowedRoles)`: `none` passes the request on.
unfoldable pub role_middleware : List Role → Option Requester → Option Error
unfolding includes_role
role_middleware allowed none = some (app_error "Authenticated user is required" 401)
role_middleware allowed (some r) =
    if is_empty allowed
    then some (app_error "Allowed roles must be configured" 500)
    else if includes_role allowed r.role
    then none
    else some (app_error "You do not have permission to access this resource" 403)
