-- ===== src/Executions/Rows.antt =====
-- `findAll`, `countAll` and `create` of
-- src/modules/workflow-executions/workflowExecutions.repository.js, and `createMany` of
-- src/modules/workflow-execution-steps/workflowExecutionSteps.repository.js
use gov_flow.Prelude.{
  ℕ, suc, String, Bool, true, ◌&&◌, not, List, [], ◌∷◌, ◌++◌, map, Option, none, some, ◌==◌, leb,
  select, find, is_some,
}
use gov_flow.Js.Text.{to_lower_case}
use gov_flow.Js.Value.{Value, null, coalesce}
use gov_flow.Database.{
  Db, Execution, ExecutionStatus, ExecutionStep, WorkflowStep, pending, status_text,
}
use gov_flow.Executions.Repository.{
  ExecutionDetails, with_workflow, execution_key, workflow_key, sort_by,
}
use gov_flow.Executions.StepRepository.{step_key, workflow_step_key}
use gov_flow.Workflows.Repository.{column_is, user_key}
use gov_flow.Runtime.{Result, ok, err}
use gov_flow.Runtime.Insert.{check, is_new, refers, unique_violation, foreign_key_violation}

pub record ExecutionFilters : Type 0 where
  pub workflow_id : Option String
  pub started_by : Option String
  pub department_id : Option String
  pub status : Option String

-- `workflow_executions.status = $n` where the filter has a value
abbrev pub status_is : ExecutionStatus → Option String → Bool
status_is s none = true
status_is s (some text) = status_text s == text

-- The WHERE clause of `buildWorkflowExecutionsFiltersQuery`
abbrev pub execution_matches : ExecutionFilters → ExecutionDetails → Bool
execution_matches f x =
    column_is (some x.execution.workflow_id) f.workflow_id
    && column_is x.execution.started_by f.started_by
    && column_is x.department_id f.department_id
    && status_is x.execution.status f.status

-- `ORDER BY created_at DESC`
abbrev pub newer_execution : ExecutionDetails → ExecutionDetails → Bool
newer_execution x y = leb y.execution.created_at x.execution.created_at

-- The rows of `findAll` and `countAll` without LIMIT and OFFSET
unfoldable pub execution_rows : ExecutionFilters → Db → List ExecutionDetails
unfolding sort_by
execution_rows f d =
    sort_by newer_execution (select (execution_matches f) (map (with_workflow d) d.executions))

abbrev pub new_execution : String → String → String → Value → ℕ → Execution
new_execution id workflow_id started_by input now = record {
  id = id;
  workflow_id = to_lower_case workflow_id;
  started_by = some (to_lower_case started_by);
  status = pending;
  input = coalesce input null;
  result = null;
  started_at = none;
  completed_at = none;
  created_at = now;
  updated_at = now;
}

-- `create`
unfoldable pub insert_execution :
    String → String → String → Value → ℕ → Db → Result (Execution × Db)
insert_execution id workflow_id started_by input now d =
    check (is_new execution_key id d.executions) (unique_violation "workflow_executions_pkey") (
      check (refers workflow_key (some workflow_id) d.workflows)
        (foreign_key_violation "workflow_executions_workflow_id_fkey")
        (check (refers user_key (some started_by) d.users)
          (foreign_key_violation "workflow_executions_started_by_fkey")
          (ok (
            new_execution id workflow_id started_by input now,
            record d {
              executions = d.executions ++ new_execution id workflow_id started_by input now ∷ [];
            },
          ))))

abbrev pub new_step_row : String → String → String → ℕ → ExecutionStep
new_step_row id execution_id step_id now = record {
  id = id;
  execution_id = to_lower_case execution_id;
  step_id = to_lower_case step_id;
  status = pending;
  started_at = none;
  completed_at = none;
  error_message = none;
  output = null;
  updated_at = now;
}

-- A row of a step within an execution
abbrev pub is_for : String → String → ExecutionStep → Bool
is_for execution_id step_id s =
    to_lower_case s.execution_id == to_lower_case execution_id
    && to_lower_case s.step_id == to_lower_case step_id

abbrev pub insert_step_row : ExecutionStep → Db → Result (ExecutionStep × Db)
insert_step_row s d =
    check (is_new step_key s.id d.execution_steps)
      (unique_violation "workflow_execution_steps_pkey")
      (check (not (is_some (find (is_for s.execution_id s.step_id) d.execution_steps)))
        (unique_violation "workflow_execution_steps_execution_id_step_id_key")
        (check (refers execution_key (some s.execution_id) d.executions)
          (foreign_key_violation "workflow_execution_steps_execution_id_fkey")
          (check (refers workflow_step_key (some s.step_id) d.workflow_steps)
            (foreign_key_violation "workflow_execution_steps_step_id_fkey")
            (ok (s, record d { execution_steps = d.execution_steps ++ s ∷ [] })))))

abbrev pub and_then :
    {A B : Type 0} → Result (A × Db) → (A → Db → Result (B × Db)) → Result (B × Db)
and_then (ok (a, d)) f = f a d
and_then (err e) f = err e

abbrev pub insert_step_rows : List ExecutionStep → Db → Result (List ExecutionStep × Db)
insert_step_rows [] d = ok ([], d)
insert_step_rows (s ∷ rest) d =
    and_then (insert_step_row s d)
      (λ row d'. and_then (insert_step_rows rest d') (λ rows d''. ok (row ∷ rows, d'')))

-- The VALUES of `createMany`, the n-th row under the n-th new id
abbrev pub new_step_rows : (ℕ → String) → String → List WorkflowStep → ℕ → List ExecutionStep
new_step_rows ids execution_id [] now = []
new_step_rows ids execution_id (s ∷ rest) now =
    new_step_row (ids 0) execution_id s.id now
    ∷ new_step_rows (λ n. ids (suc n)) execution_id rest now

-- `createMany`, for steps of one execution
unfoldable pub create_many :
    (ℕ → String) → String → List WorkflowStep → ℕ → Db → Result (List ExecutionStep × Db)
create_many ids execution_id steps now d =
    insert_step_rows (new_step_rows ids execution_id steps now) d
