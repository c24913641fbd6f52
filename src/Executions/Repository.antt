-- ===== src/Executions/Repository.antt =====
-- src/modules/workflow-executions/workflowExecutions.repository.js. A statement takes the time and
-- the database. UUIDs are compared as PostgreSQL compares them, without regard to case.
use gov_flow.Prelude.{
  ℕ, zero, suc, ◌+◌, ◌*◌, String, Bool, false, ◌&&◌, List, [], ◌∷◌, Option, none, some, leb,
  if◌then◌else◌, select, or_else,
}
use gov_flow.Js.Text.{to_lower_case}
use gov_flow.Js.Value.{Value, coalesce}
use gov_flow.Database.{
  Db, Workflow, Execution, ExecutionStatus, running, failed, is_pending, is_running,
}
use gov_flow.Database.Table.{lookup, update, updated}
use gov_flow.Runtime.{Result, ok}

abbrev pub execution_key : Execution → String
execution_key x = to_lower_case x.id

abbrev pub workflow_key : Workflow → String
workflow_key x = to_lower_case x.id

abbrev pub find_execution : String → Db → Option Execution
find_execution id d = lookup execution_key (to_lower_case id) d.executions

abbrev pub find_workflow : String → Db → Option Workflow
find_workflow id d = lookup workflow_key (to_lower_case id) d.workflows

-- An execution with the columns that the query joins from its workflow.
pub record ExecutionDetails : Type 0 where
  pub execution : Execution
  pub open execution use *
  pub workflow_name : Option String
  pub department_id : Option String

abbrev pub name_of : Option Workflow → Option String
name_of none = none
name_of (some w) = some w.name

abbrev pub department_of : Option Workflow → Option String
department_of none = none
department_of (some w) = w.department_id

abbrev pub with_workflow : Db → Execution → ExecutionDetails
with_workflow d x = record {
  execution = x;
  workflow_name = name_of (find_workflow x.workflow_id d);
  department_id = department_of (find_workflow x.workflow_id d);
}

unfoldable pub find_by_id : String → ℕ → Db → Result (Option ExecutionDetails × Db)
find_by_id id now d =
    ok ((elim (find_execution id d) [ none ↦ none | some x ↦ some (with_workflow d x) ]), d)

-- The UPDATE of the execution with an id, if it satisfies the guard.
abbrev pub update_execution :
    String → (Execution → Bool) → (Execution → Execution) → Db → Result (Option Execution × Db)
update_execution id guard set d = ok (
  updated execution_key (to_lower_case id) guard set d.executions,
  record d { executions = update execution_key (to_lower_case id) guard set d.executions },
)

abbrev pub is_claimable : Execution → Bool
is_claimable x = is_pending x.status

abbrev pub set_claimed : ℕ → Execution → Execution
set_claimed now x = record x {
  status = running;
  started_at = some (or_else x.started_at now);
  updated_at = now;
}

unfoldable pub claim_pending_execution : String → ℕ → Db → Result (Option Execution × Db)
claim_pending_execution id now d = update_execution id is_claimable (set_claimed now) d

abbrev pub is_finalizable : Execution → Bool
is_finalizable x = is_running x.status

abbrev pub set_finalized : ExecutionStatus → Value → ℕ → Execution → Execution
set_finalized status result now x = record x {
  status = status;
  completed_at = some now;
  result = coalesce result x.result;
  updated_at = now;
}

unfoldable pub finalize_running_execution :
    String → ExecutionStatus → Value → ℕ → Db → Result (Option Execution × Db)
finalize_running_execution id status result now d =
    update_execution id is_finalizable (set_finalized status result now) d

-- Times count milliseconds; `started_at <= NOW() - timeout minutes`
abbrev pub is_stale : ℕ → ℕ → Execution → Bool
is_stale timeout now x =
    is_running x.status
    && elim x.started_at [ none ↦ false | some t ↦ leb (t + timeout * 60000) now ]

-- `ORDER BY started_at ASC`
abbrev pub started_before : Execution → Execution → Bool
started_before x y = leb (or_else x.started_at 0) (or_else y.started_at 0)

abbrev pub insert_by {ℓ} : {A : Type ℓ} → (A → A → Bool) → A → List A → List A
insert_by le x [] = x ∷ []
insert_by le x (y ∷ ys) = let rest = insert_by le x ys in if le x y then x ∷ y ∷ ys else y ∷ rest

unfoldable pub sort_by {ℓ} : {A : Type ℓ} → (A → A → Bool) → List A → List A
sort_by le [] = []
sort_by le (x ∷ xs) = insert_by le x (sort_by le xs)

-- `LIMIT n`
unfoldable pub limit_to {ℓ} : {A : Type ℓ} → ℕ → List A → List A
limit_to zero xs = []
limit_to (suc n) [] = []
limit_to (suc n) (x ∷ xs) = x ∷ limit_to n xs

unfoldable pub find_stale_running : ℕ → ℕ → ℕ → Db → Result (List Execution × Db)
unfolding sort_by limit_to
find_stale_running timeout limit now d =
    ok (limit_to limit (sort_by started_before (select (is_stale timeout now) d.executions)), d)

abbrev pub set_failed_stale : Value → ℕ → Execution → Execution
set_failed_stale result now x = record x {
  status = failed;
  completed_at = some now;
  result = result;
  updated_at = now;
}

unfoldable pub fail_stale_running : String → ℕ → Value → ℕ → Db → Result (Option Execution × Db)
fail_stale_running id timeout result now d =
    update_execution id (is_stale timeout now) (set_failed_stale result now) d
