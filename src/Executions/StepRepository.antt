-- ===== src/Executions/StepRepository.antt =====
-- src/modules/workflow-execution-steps/workflowExecutionSteps.repository.js
use gov_flow.Prelude.{
  ℕ, String, Bool, ◌&&◌, List, [], ◌∷◌, map, Option, none, some, ◌==◌, leb, select, or_else, true,
}
use gov_flow.Js.Text.{to_lower_case}
use gov_flow.Js.Value.{Value, coalesce}
use gov_flow.Database.{
  Db, WorkflowStep, ExecutionStep, StepStatus, running, failed, is_step_pending, is_step_running,
}
use gov_flow.Database.Table.{lookup, update, updated, update_all}
use gov_flow.Executions.Repository.{sort_by}
use gov_flow.Runtime.{Result, ok}

abbrev pub step_key : ExecutionStep → String
step_key s = to_lower_case s.id

abbrev pub workflow_step_key : WorkflowStep → String
workflow_step_key s = to_lower_case s.id

abbrev pub find_step : String → Db → Option ExecutionStep
find_step id d = lookup step_key (to_lower_case id) d.execution_steps

-- A step with the columns that the query joins from the step of the workflow.
pub record StepDetails : Type 0 where
  pub row : ExecutionStep
  pub open row use *
  pub step_name : String
  pub step_order : ℕ
  pub action_type : String
  pub configuration : Value

abbrev pub with_template : ExecutionStep → WorkflowStep → StepDetails
with_template s t = record {
  row = s;
  step_name = t.name;
  step_order = t.step_order;
  action_type = t.action_type;
  configuration = t.configuration;
}

abbrev pub belongs_to : String → ExecutionStep → Bool
belongs_to execution_id s = to_lower_case s.execution_id == to_lower_case execution_id

-- `INNER JOIN workflow_steps`: a step without its template is left out.
unfoldable pub join_templates : List WorkflowStep → List ExecutionStep → List StepDetails
join_templates templates [] = []
join_templates templates (s ∷ rest) =
    let joined = join_templates templates rest in
    elim (lookup workflow_step_key (to_lower_case s.step_id) templates) [
      | none ↦ joined
      | some t ↦ with_template s t ∷ joined
    ]

abbrev pub ordered_before : StepDetails → StepDetails → Bool
ordered_before s t = leb s.step_order t.step_order

unfoldable pub find_by_execution_id : String → ℕ → Db → Result (List StepDetails × Db)
unfolding sort_by join_templates
find_by_execution_id execution_id now d = ok (
  sort_by ordered_before
      (join_templates d.workflow_steps (select (belongs_to execution_id) d.execution_steps)),
  d,
)

abbrev pub update_step :
    String
    → (ExecutionStep → Bool)
    → (ExecutionStep → ExecutionStep)
    → Db
    → Result (Option ExecutionStep × Db)
update_step id guard set d = ok (
  updated step_key (to_lower_case id) guard set d.execution_steps,
  record d { execution_steps = update step_key (to_lower_case id) guard set d.execution_steps },
)

abbrev pub is_step_claimable : ExecutionStep → Bool
is_step_claimable s = is_step_pending s.status

abbrev pub set_step_claimed : ℕ → ExecutionStep → ExecutionStep
set_step_claimed now s = record s {
  status = running;
  started_at = some (or_else s.started_at now);
  error_message = none;
  updated_at = now;
}

unfoldable pub claim_pending_step : String → ℕ → Db → Result (Option ExecutionStep × Db)
claim_pending_step id now d = update_step id is_step_claimable (set_step_claimed now) d

-- The arguments of `updateStatus`; `null` for those that are left out.
pub record StatusChange : Type 0 where
  pub status : StepStatus
  pub completed_at : Option ℕ
  pub error_message : Option String
  pub output : Value

abbrev pub prefer {ℓ} : {A : Type ℓ} → Option A → Option A → Option A
prefer none b = b
prefer (some a) b = some a

abbrev pub set_status : StatusChange → ℕ → ExecutionStep → ExecutionStep
set_status c now s = record s {
  status = c.status;
  completed_at = prefer c.completed_at s.completed_at;
  error_message = c.error_message;
  output = coalesce c.output s.output;
  updated_at = now;
}

unfoldable pub update_status : String → StatusChange → ℕ → Db → Result (Option ExecutionStep × Db)
update_status id c now d = update_step id (λ s. true) (set_status c now) d

abbrev pub is_running_of : String → ExecutionStep → Bool
is_running_of execution_id s = belongs_to execution_id s && is_step_running s.status

abbrev pub set_step_failed : String → ℕ → ExecutionStep → ExecutionStep
set_step_failed message now s = record s {
  status = failed;
  completed_at = some now;
  error_message = some message;
  updated_at = now;
}

unfoldable pub fail_running_by_execution_id :
    String → String → ℕ → Db → Result (List ExecutionStep × Db)
fail_running_by_execution_id execution_id message now d = ok (
  map (set_step_failed message now) (select (is_running_of execution_id) d.execution_steps),
  record d {
    execution_steps =
        update_all step_key (is_running_of execution_id) (set_step_failed message now)
          d.execution_steps;
  },
)
