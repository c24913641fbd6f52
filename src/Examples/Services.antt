-- ===== src/Examples/Services.antt =====
-- The theorems on the services of workflows and executions, in the small world.
use Prim.Native.Nat.{◌^◌}
use gov_flow.Prelude.{
  ◌≡◌, refl, ◌+◌, ◌<◌, Option, none, some, false, List, length, arith, All, ℕ, ap, sym, ◌∙◌, [],
  ◌∷◌, inl, inr,
}
use gov_flow.Js.Text.{to_lower_case}
use gov_flow.Js.Number.{ceil_div}
use gov_flow.Js.Value.{null, undefined, str}
use gov_flow.Database.{Db, Execution, pending, manager}
use gov_flow.Database.Table.{lookup}
use gov_flow.Access.{Requester}
use gov_flow.Access.Listing.{IsCanonical}
use gov_flow.Executions.Repository.{ExecutionDetails, with_workflow}
use gov_flow.Executions.Rows.{execution_matches, execution_rows}
use gov_flow.Executions.Service.{
  ListExecutions, list_workflow_executions, insert_execution_and_steps,
}
use gov_flow.Executions.Service.Listed
use gov_flow.Executions.Service.Creation.{IsCreated, insert_execution_and_steps-AllOrNothing}
use gov_flow.Workflows.Repository.{NewWorkflow}
use gov_flow.Workflows.Service.{ListWorkflows, list_workflows, duplicate}
use gov_flow.Workflows.Service.Listed as WorkflowsListed
use gov_flow.Workflows.Service.Copy.{steps_of, AreCopies, IsDuplicated, duplicate-AllOrNothing}
use gov_flow.Workflows.Service.Readback.{HaveParents, steps_of-duplicate}
use gov_flow.Paging.Steady.{Shuffles, AllTold, at_top, execution_rows-IsSteady}
use gov_flow.Runtime.Quiet.{IsQuiet}
use gov_flow.Paging.Pages.{read_pages, read_pages-all}
use gov_flow.Runtime.{Env, World, ok, await, transaction}
use gov_flow.Runtime.Ends.{Ends}
use gov_flow.Runtime.Atomic.{AllOrNothing}
use gov_flow.Examples.World.{quiet, quiet-IsSerial, pending_world, admin_id, execution_row}

abbrev head_of_d1 : Option Requester
head_of_d1 = some (record { id = admin_id; role = manager; department_id = some "d1" })

canonical : IsCanonical head_of_d1
unfolding to_lower_case
canonical = refl

abbrev executions_query : ListExecutions
executions_query = record {
  page = undefined;
  limit = str "5";
  workflow_id = undefined;
  started_by = undefined;
  status = str "PENDING";
  requester = head_of_d1;
}

list_workflow_executions-IsReadable_example :
    Ends
      (λ page v. All (Listed.IsReadable head_of_d1) page.items)
      (list_workflow_executions quiet executions_query pending_world)
list_workflow_executions-IsReadable_example =
    Listed.list_workflow_executions-IsReadable quiet executions_query pending_world canonical

abbrev workflows_query : ListWorkflows
workflows_query = record {
  page = str "1";
  limit = undefined;
  department_id = undefined;
  created_by = undefined;
  is_active = str "true";
  requester = head_of_d1;
}

list_workflows-IsReadable_example :
    Ends
      (λ page v. All (WorkflowsListed.IsReadable head_of_d1) page.items)
      (list_workflows quiet workflows_query pending_world)
list_workflows-IsReadable_example =
    WorkflowsListed.list_workflows-IsReadable quiet workflows_query pending_world canonical

insert_execution_and_steps-AllOrNothing_example :
    AllOrNothing
      (IsCreated "w1" admin_id null (await quiet pending_world).db)
      (await quiet pending_world).db
      (transaction quiet (insert_execution_and_steps quiet "w1" null admin_id) pending_world)
insert_execution_and_steps-AllOrNothing_example =
    insert_execution_and_steps-AllOrNothing quiet "w1" null admin_id pending_world quiet-IsSerial

abbrev permit_copy : NewWorkflow
permit_copy = record {
  name = "Permit (copy)";
  description = none;
  department_id = none;
  created_by = none;
  is_active = false;
}

duplicate-AllOrNothing_example :
    AllOrNothing
      (IsDuplicated "w1" permit_copy (await quiet pending_world).db)
      (await quiet pending_world).db
      (duplicate quiet "w1" permit_copy pending_world)
duplicate-AllOrNothing_example =
    duplicate-AllOrNothing quiet "w1" permit_copy pending_world quiet-IsSerial

parents : HaveParents (await quiet pending_world).db
unfolding await lookup to_lower_case
parents = (refl, (refl, tt))

steps_of-duplicate_example :
    Ends
      (λ x v. AreCopies x.id (steps_of "w1" (await quiet pending_world).db) (steps_of x.id v.db))
      (duplicate quiet "w1" permit_copy pending_world)
steps_of-duplicate_example =
    steps_of-duplicate quiet "w1" permit_copy pending_world quiet-IsSerial parents

abbrev all_executions : Db → List ExecutionDetails
all_executions =
    execution_rows
      (record { workflow_id = none; started_by = none; department_id = none; status = none })

-- Two executions of different times, which the queries find in the one order or the other
abbrev later_row : Execution
later_row = record (execution_row pending none) { id = "later"; created_at = 99 }

abbrev two_world : World
two_world = record pending_world {
  db = record pending_world.db { executions = execution_row pending none ∷ later_row ∷ [] };
}

abbrev turned : List Execution → List Execution
turned (x ∷ y ∷ xs) = y ∷ x ∷ xs
turned xs = xs

abbrev unordered : Env
unordered = record quiet { scan = λ n d. record d { executions = turned d.executions } }

unordered-IsQuiet : IsQuiet unordered
unordered-IsQuiet = record { alone = λ n d. refl; serial = λ n d. refl; healthy = λ n. refl }

unordered-Shuffles : Shuffles unordered two_world.db
unordered-Shuffles n = (turned two_world.db.executions, at_top, refl)

abbrev created : Execution → ℕ
created x = x.created_at

other_time : created (execution_row pending none) ≡ created later_row → ⊥
other_time e = omega arith

two_times :
    AllTold
      (λ (x : ExecutionDetails). x.execution.created_at)
      (execution_matches
        (record { workflow_id = none; started_by = none; department_id = none; status = none }))
      (with_workflow two_world.db)
      two_world.db.executions
two_times a b (inl e) (inl f) h = ap (with_workflow two_world.db) (e ∙ sym f)
two_times a b (inl e) (inr (inl f)) h = absurd (other_time (ap created (sym e) ∙ h ∙ ap created f))
two_times a b (inr (inl e)) (inl f) h =
    absurd (other_time (ap created (sym f) ∙ sym h ∙ ap created e))
two_times a b (inr (inl e)) (inr (inl f)) h = ap (with_workflow two_world.db) (e ∙ sym f)
two_times a b (inl e) (inr (inr x)) h = elim x [ ]
two_times a b (inr (inl e)) (inr (inr x)) h = elim x [ ]
two_times a b (inr (inr x)) _ h = elim x [ ]

few : length (all_executions two_world.db) + 1 < 2 ^ 63
unfolding execution_rows
few = omega arith

read_pages-all_example :
    (v : World) × (read_pages unordered all_executions 1
        (ceil_div (length (all_executions two_world.db)) 1)
        two_world
      ≡ (ok (all_executions two_world.db), v))
    × (v.db ≡ two_world.db)
read_pages-all_example =
    read_pages-all unordered unordered-IsQuiet all_executions 1 two_world
      (execution_rows-IsSteady unordered _ two_world.db unordered-Shuffles two_times) (omega arith)
      (omega arith) few
