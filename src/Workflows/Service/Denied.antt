-- ===== src/Workflows/Service/Denied.antt =====
-- What the services for workflows tell of a workflow that the requester may not read.
use gov_flow.Prelude.{
  suc, String, false, ◌≡◌, refl, sym, ◌∙◌, ap, [], Option, none, some, or_else, arith,
}
use gov_flow.Js.Value.{Value}
use gov_flow.Errors.{app_error}
use gov_flow.Database.{Db, Workflow}
use gov_flow.Access.{Requester, can_access, assert_can_access_workflow}
use gov_flow.Access.Denied.{denied-err, IsDenied}
use gov_flow.Runtime.{Env, World}
use gov_flow.Runtime.Quiet.{IsQuiet, bind-ok, bind-err, query_quiet, require_valid-ok}
use gov_flow.Validators.Workflows.{validate_workflow_id, validate_update_workflow}
use gov_flow.Executions.Repository.{find_workflow}
use gov_flow.Workflows.Repository.{WorkflowDetails, with_names, find_workflow_by_id}
use gov_flow.Workflows.Service.{
  accessible_workflow, get_workflow_by_id, update_workflow_active, prepare_duplicate,
  duplicate_workflow,
}

module _ (id : String) (requester : Option Requester) where
  row_denied :
      (d : Db) (o : Option Workflow)
      → ((x : Workflow) → o ≡ some x → can_access (some x.department_id) requester ≡ false)
      → (x : WorkflowDetails) → (elim o [ none ↦ none | some v ↦ some (with_names d v) ]) ≡ some x
      → can_access (some x.department_id) requester ≡ false
  row_denied d none h x e = ground arith
  row_denied d (some v) h x e =
      ap (λ (o : Option WorkflowDetails). can_access (some (or_else o x).department_id) requester)
        (sym e)
      ∙ h v refl

  module _ (env : Env) (w : World) (q : IsQuiet env)
      (h : (x : Workflow)
        → find_workflow id w.db ≡ some x
        → can_access (some x.department_id) requester ≡ false)
      (valid : validate_workflow_id id ≡ []) where
    accessible-IsDenied :
        IsDenied (app_error "Workflow not found" 404) (accessible_workflow env id requester) w
    unfolding accessible_workflow find_workflow_by_id assert_can_access_workflow
    accessible-IsDenied =
        bind-ok _ _ w (record w { ticks = suc w.ticks }) _ (query_quiet env q _ w)
        ∙ denied-err (app_error "Workflow not found" 404)
            (λ (x : WorkflowDetails). can_access (some x.department_id) requester) _
            (record w { ticks = suc w.ticks }) (row_denied w.db (find_workflow id w.db) h)

    duplicate-IsDenied :
        (name : Value)
        → IsDenied (app_error "Workflow not found" 404) (prepare_duplicate env id name requester) w
    unfolding prepare_duplicate
    duplicate-IsDenied name =
        bind-ok _ _ w w tt (require_valid-ok _ _ w valid)
        ∙ bind-err _ _ w (record w { ticks = suc w.ticks }) _ accessible-IsDenied

    -- With nobody else at the database and no failing query, for a valid id and a valid flag of the
    -- update: where no workflow has the id, and just the same where one has it and the requester may
    -- not read it, reading, updating and duplicating the workflow all end in 404 `Workflow not
    -- found`, and nothing is written.
    pub workflow_requests-IsDenied :
        (is_active name : Value)
        → validate_update_workflow is_active ≡ []
        → IsDenied (app_error "Workflow not found" 404) (get_workflow_by_id env id requester) w
          × IsDenied
              (app_error "Workflow not found" 404)
              (update_workflow_active env id is_active requester)
              w
          × IsDenied
              (app_error "Workflow not found" 404)
              (duplicate_workflow env id name requester)
              w
    unfolding get_workflow_by_id update_workflow_active duplicate_workflow
    workflow_requests-IsDenied is_active name active = (
      bind-ok _ _ w w tt (require_valid-ok _ _ w valid) ∙ accessible-IsDenied,
      bind-ok _ _ w w tt (require_valid-ok _ _ w valid)
          ∙ bind-ok _ _ w w tt (require_valid-ok _ _ w active)
          ∙ bind-err _ _ w (record w { ticks = suc w.ticks }) _ accessible-IsDenied,
      bind-err _ _ w (record w { ticks = suc w.ticks }) _ (duplicate-IsDenied name),
    )
