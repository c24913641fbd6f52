-- ===== src/Workflows/Repository.antt =====
-- src/modules/workflows/workflows.repository.js, less `duplicate`
use gov_flow.Prelude.{
  ℕ, String, Bool, true, false, ◌&&◌, not, List, [], ◌∷◌, ◌++◌, map, Option, none, some, ◌==◌, leb,
  select,
}
use gov_flow.Js.Text.{to_lower_case}
use gov_flow.Database.{Db, Department, User, Workflow}
use gov_flow.Database.Table.{lookup, update, updated}
use gov_flow.Executions.Repository.{workflow_key, find_workflow, sort_by}
use gov_flow.Runtime.{Result, ok}
use gov_flow.Runtime.Insert.{check, is_new, refers, unique_violation, foreign_key_violation}

abbrev pub department_key : Department → String
department_key d = to_lower_case d.id

abbrev pub user_key : User → String
user_key u = to_lower_case u.id

abbrev pub find_department : String → Db → Option Department
find_department id d = lookup department_key (to_lower_case id) d.departments

abbrev pub find_user : String → Db → Option User
find_user id d = lookup user_key (to_lower_case id) d.users

-- A workflow with the columns that the query joins.
pub record WorkflowDetails : Type 0 where
  pub workflow : Workflow
  pub open workflow use *
  pub department_name : Option String
  pub created_by_email : Option String

abbrev pub department_name_of : Db → Option String → Option String
department_name_of d none = none
department_name_of d (some id) = elim (find_department id d) [ none ↦ none | some x ↦ some x.name ]

abbrev pub email_of : Db → Option String → Option String
email_of d none = none
email_of d (some id) = elim (find_user id d) [ none ↦ none | some x ↦ some x.email ]

abbrev pub with_names : Db → Workflow → WorkflowDetails
with_names d w = record {
  workflow = w;
  department_name = department_name_of d w.department_id;
  created_by_email = email_of d w.created_by;
}

-- `column = $n` on a UUID column, which holds lower case, where the filter has a value
abbrev pub column_is : Option String → Option String → Bool
column_is column none = true
column_is none (some v) = false
column_is (some c) (some v) = c == to_lower_case v

abbrev pub flag_is : Bool → Option Bool → Bool
flag_is b none = true
flag_is true (some v) = v
flag_is false (some v) = not v

pub record WorkflowFilters : Type 0 where
  pub department_id : Option String
  pub created_by : Option String
  pub is_active : Option Bool

-- The WHERE clause of `buildWorkflowsFiltersQuery`
abbrev pub workflow_matches : WorkflowFilters → Workflow → Bool
workflow_matches f w =
    column_is w.department_id f.department_id
    && column_is w.created_by f.created_by
    && flag_is w.is_active f.is_active

-- `ORDER BY created_at DESC`
abbrev pub newer_workflow : Workflow → Workflow → Bool
newer_workflow v w = leb w.created_at v.created_at

-- The rows of `findAll` and `countAll` without LIMIT and OFFSET
unfoldable pub workflow_rows : WorkflowFilters → Db → List WorkflowDetails
unfolding sort_by
workflow_rows f d =
    map (with_names d) (sort_by newer_workflow (select (workflow_matches f) d.workflows))

unfoldable pub find_workflow_by_id : String → ℕ → Db → Result (Option WorkflowDetails × Db)
find_workflow_by_id id now d =
    ok ((elim (find_workflow id d) [ none ↦ none | some w ↦ some (with_names d w) ]), d)

-- What an INSERT INTO workflows gives.
pub record NewWorkflow : Type 0 where
  pub name : String
  pub description : Option String
  pub department_id : Option String
  pub created_by : Option String
  pub is_active : Bool

abbrev pub lower_column : Option String → Option String
lower_column none = none
lower_column (some s) = some (to_lower_case s)

abbrev pub workflow_of : String → NewWorkflow → ℕ → Workflow
workflow_of id n now = record {
  id = id;
  name = n.name;
  description = n.description;
  department_id = lower_column n.department_id;
  created_by = lower_column n.created_by;
  is_active = n.is_active;
  created_at = now;
}

unfoldable pub insert_workflow : String → NewWorkflow → ℕ → Db → Result (Workflow × Db)
insert_workflow id n now d =
    check (is_new workflow_key id d.workflows) (unique_violation "workflows_pkey") (
      check (refers department_key n.department_id d.departments)
        (foreign_key_violation "workflows_department_id_fkey")
        (check (refers user_key n.created_by d.users)
          (foreign_key_violation "workflows_created_by_fkey")
          (ok (
            workflow_of id n now,
            record d { workflows = d.workflows ++ workflow_of id n now ∷ [] },
          ))))

abbrev pub set_active : Bool → Workflow → Workflow
set_active b w = record w { is_active = b }

-- `update`
unfoldable pub update_workflow : String → Bool → ℕ → Db → Result (Option Workflow × Db)
update_workflow id b now d = ok (
  updated workflow_key (to_lower_case id) (λ w. true) (set_active b) d.workflows,
  record d {
    workflows = update workflow_key (to_lower_case id) (λ w. true) (set_active b) d.workflows;
  },
)
