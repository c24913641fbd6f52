-- ===== src/Workflows/StepRepository.antt =====
-- src/modules/workflow-steps/workflowSteps.repository.js
use Prim.Native.Nat.{◌^◌}
use gov_flow.Prelude.{
  ℕ, String, Bool, ◌&&◌, not, List, [], ◌∷◌, ◌++◌, Option, some, ◌==◌, leb, ltb, same_number,
  select, find, is_some,
}
use gov_flow.Js.Text.{to_lower_case}
use gov_flow.Js.Value.{Value}
use gov_flow.Database.{Db, WorkflowStep}
use gov_flow.Executions.Repository.{workflow_key, sort_by}
use gov_flow.Executions.StepRepository.{workflow_step_key}
use gov_flow.Runtime.{Result, ok}
use gov_flow.Runtime.Insert.{
  check, is_new, refers, unique_violation, foreign_key_violation, out_of_integer_range,
}

-- `workflow_id = $1`
abbrev pub step_of : String → WorkflowStep → Bool
step_of workflow_id s = to_lower_case s.workflow_id == to_lower_case workflow_id

abbrev pub active_step_of : String → WorkflowStep → Bool
active_step_of workflow_id s = step_of workflow_id s && s.is_active

-- `ORDER BY step_order ASC`
abbrev pub earlier_step : WorkflowStep → WorkflowStep → Bool
earlier_step s t = leb s.step_order t.step_order

-- `findByWorkflowId`
unfoldable pub find_steps : String → ℕ → Db → Result (List WorkflowStep × Db)
unfolding sort_by
find_steps workflow_id now d =
    ok (sort_by earlier_step (select (step_of workflow_id) d.workflow_steps), d)

-- `findActiveByWorkflowId`
unfoldable pub find_active_steps : String → ℕ → Db → Result (List WorkflowStep × Db)
unfolding sort_by
find_active_steps workflow_id now d =
    ok (sort_by earlier_step (select (active_step_of workflow_id) d.workflow_steps), d)

abbrev pub has_place : String → ℕ → WorkflowStep → Bool
has_place workflow_id order s = step_of workflow_id s && same_number s.step_order order

-- `findByWorkflowIdAndStepOrder`
unfoldable pub find_step_at : String → ℕ → ℕ → Db → Result (Option WorkflowStep × Db)
find_step_at workflow_id order now d =
    check (ltb order (2 ^ 31)) out_of_integer_range
      (ok (find (has_place workflow_id order) d.workflow_steps, d))

-- What an INSERT INTO workflow_steps gives.
pub record NewStep : Type 0 where
  pub workflow_id : String
  pub name : String
  pub description : Option String
  pub step_order : ℕ
  pub action_type : String
  pub configuration : Value
  pub is_active : Bool

abbrev pub step_row_of : String → NewStep → WorkflowStep
step_row_of id n = record {
  id = id;
  workflow_id = to_lower_case n.workflow_id;
  name = n.name;
  description = n.description;
  step_order = n.step_order;
  action_type = n.action_type;
  configuration = n.configuration;
  is_active = n.is_active;
}

-- `create`, under the keys of the table and `UNIQUE (workflow_id, step_order)`
unfoldable pub insert_step : String → NewStep → ℕ → Db → Result (WorkflowStep × Db)
insert_step id n now d = check (ltb n.step_order (2 ^ 31)) out_of_integer_range (
    check (is_new workflow_step_key id d.workflow_steps) (unique_violation "workflow_steps_pkey") (
      check (not (is_some (find (has_place n.workflow_id n.step_order) d.workflow_steps)))
        (unique_violation "workflow_steps_workflow_id_step_order_key")
        (check (refers workflow_key (some n.workflow_id) d.workflows)
          (foreign_key_violation "workflow_steps_workflow_id_fkey")
          (ok (
            step_row_of id n,
            record d { workflow_steps = d.workflow_steps ++ step_row_of id n ∷ [] },
          )))))
