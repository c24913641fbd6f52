-- ===== src/Executions/Service/Listed.antt =====
-- What `listWorkflowExecutions` shows to whom.
use gov_flow.Prelude.{
  ◌≡◌, Bool, true, false, ◌&&◌, All, map, Option, some, inl, inr, Bool-cases, arith,
}
use gov_flow.Database.{Db}
use gov_flow.Access.{Requester, can_access, resolve_list_department_scope}
use gov_flow.Access.Listing.{IsCanonical, is_closed, listed-readable}
use gov_flow.Workflows.Repository.{column_is}
use gov_flow.Executions.Repository.{ExecutionDetails, with_workflow}
use gov_flow.Executions.Rows.{execution_matches, execution_rows, newer_execution, status_is}
use gov_flow.Runtime.{Env, World, require_valid, pure}
use gov_flow.Runtime.Ends.{Ends, Ends-bind, Ends-any}
use gov_flow.Paging.{paging}
use gov_flow.Paging.Reads.{All-select, All-sort_by, Ends-list_page}
use gov_flow.Executions.Service.{ListExecutions, filters_in, list_workflow_executions}

-- The requester may read the execution.
abbrev pub IsReadable : Option Requester → ExecutionDetails → Type 0
IsReadable r x = can_access (some x.department_id) r ≡ true

third : (a b c d : Bool) → (a && b && c && d) ≡ true → c ≡ true
third a b c d h = ground arith

rows-IsReadable :
    (q : ListExecutions) (d : Db)
    → IsCanonical q.requester
    → is_closed (resolve_list_department_scope q.requester) ≡ false
    → All
        (IsReadable q.requester)
        (execution_rows (filters_in (resolve_list_department_scope q.requester) q) d)
unfolding execution_rows
rows-IsReadable q d c o =
    let scope = resolve_list_department_scope q.requester in
    let f = filters_in scope q in
    All-sort_by _ newer_execution _ (
      All-select _ (execution_matches f) (map (with_workflow d) d.executions) (λ x h.
        listed-readable q.requester x.department_id c o (
          third (column_is (some x.execution.workflow_id) f.workflow_id)
            (column_is x.execution.started_by f.started_by)
            (column_is x.department_id f.department_id) (status_is x.execution.status f.status) h)))

-- For a requester whose department is written as the database writes it, and in any environment:
-- `listWorkflowExecutions` throws, or each execution on the page that it returns is one that the
-- requester may read.
pub list_workflow_executions-IsReadable :
    (env : Env) (q : ListExecutions) (w : World)
    → IsCanonical q.requester
    → Ends (λ page v. All (IsReadable q.requester) page.items) (list_workflow_executions env q w)
unfolding list_workflow_executions pure
list_workflow_executions-IsReadable env q w c =
    let scope = resolve_list_department_scope q.requester in
    Ends-bind (λ u v. Unit) _ (require_valid "Validation failed" _) _ w
      (Ends-any (λ u v. Unit) _ _ (λ u v. tt))
      (λ u v h. elim (Bool-cases (is_closed scope)) [
        | inl e ↦ rw e tt
        | inr e ↦ rw e (
            Ends-list_page (IsReadable q.requester) env _ (paging env q.page q.limit) v
              (λ d. rows-IsReadable q d c e))
      ])
