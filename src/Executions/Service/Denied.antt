-- ===== src/Executions/Service/Denied.antt =====
-- What the services for executions tell of an execution that the requester may not read.
use gov_flow.Prelude.{suc, false, ◌≡◌, refl, sym, ◌∙◌, ap, [], Option, none, some, or_else, arith}
use gov_flow.Js.Value.{Value, text_of}
use gov_flow.Errors.{app_error}
use gov_flow.Database.{Db, Execution}
use gov_flow.Access.{Requester, can_access, assert_can_access_execution}
use gov_flow.Access.Denied.{denied-err, IsDenied}
use gov_flow.Runtime.{Env, World}
use gov_flow.Runtime.Quiet.{IsQuiet, bind-ok, bind-err, query_quiet, require_valid-ok}
use gov_flow.Validators.WorkflowExecutions.{validate_workflow_execution_id}
use gov_flow.Executions.Repository.{
  ExecutionDetails, find_execution, find_by_id, find_workflow, department_of, with_workflow,
}
use gov_flow.Executions.Service.{
  validate_execution_id, accessible_execution, get_workflow_execution_by_id,
  list_workflow_execution_steps,
}

module _ (id : Value) (requester : Option Requester) where
  row_denied :
      (d : Db) (o : Option Execution)
      → ((x : Execution)
          → o ≡ some x
          → can_access (some (department_of (find_workflow x.workflow_id d))) requester ≡ false)
      → (x : ExecutionDetails)
      → (elim o [ none ↦ none | some v ↦ some (with_workflow d v) ]) ≡ some x
      → can_access (some x.department_id) requester ≡ false
  row_denied d none h x e = ground arith
  row_denied d (some v) h x e =
      ap (λ (o : Option ExecutionDetails). can_access (some (or_else o x).department_id) requester)
        (sym e)
      ∙ h v refl

  module _ (env : Env) (w : World) (q : IsQuiet env)
      (h : (x : Execution)
        → find_execution (text_of id) w.db ≡ some x
        → can_access (some (department_of (find_workflow x.workflow_id w.db))) requester
          ≡ false) where
    accessible-IsDenied :
        IsDenied
          (app_error "Workflow execution not found" 404)
          (accessible_execution env (text_of id) requester)
          w
    unfolding accessible_execution find_by_id assert_can_access_execution
    accessible-IsDenied =
        bind-ok _ _ w (record w { ticks = suc w.ticks }) _ (query_quiet env q _ w)
        ∙ denied-err (app_error "Workflow execution not found" 404)
            (λ (x : ExecutionDetails). can_access (some x.department_id) requester) _
            (record w { ticks = suc w.ticks })
            (row_denied w.db (find_execution (text_of id) w.db) h)

    -- With nobody else at the database and no failing query, for a valid id: where no execution has
    -- the id, and just the same where one has it and the requester may not read it, reading the
    -- execution and listing its steps both end in 404 `Workflow execution not found`, and nothing is
    -- written.
    pub execution_requests-IsDenied :
        validate_workflow_execution_id id ≡ []
        → validate_execution_id id ≡ []
        → IsDenied
            (app_error "Workflow execution not found" 404)
            (get_workflow_execution_by_id env id requester)
            w
          × IsDenied
              (app_error "Workflow execution not found" 404)
              (list_workflow_execution_steps env id requester)
              w
    unfolding get_workflow_execution_by_id list_workflow_execution_steps
    execution_requests-IsDenied valid valid_steps = (
      bind-ok _ _ w w tt (require_valid-ok _ _ w valid) ∙ accessible-IsDenied,
      bind-ok _ _ w w tt (require_valid-ok _ _ w valid_steps)
          ∙ bind-err _ _ w (record w { ticks = suc w.ticks }) _ accessible-IsDenied,
    )
