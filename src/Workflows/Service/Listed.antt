-- ===== src/Workflows/Service/Listed.antt =====
-- What `listWorkflows` shows to whom.
use gov_flow.Prelude.{
  ◌≡◌, refl, Bool, true, false, ◌&&◌, ◌||◌, All, Option, some, inl, inr, Bool-cases, arith,
}
use gov_flow.Database.{Db, Workflow}
use gov_flow.Access.{Requester, DepartmentScope, can_access, resolve_list_department_scope}
use gov_flow.Access.Listing.{IsCanonical, is_closed, scope_filter, listed-readable}
use gov_flow.Workflows.Repository.{
  WorkflowDetails, WorkflowFilters, with_names, column_is, workflow_matches, workflow_rows,
  newer_workflow,
}
use gov_flow.Runtime.{Env, World, pure, require_valid}
use gov_flow.Runtime.Ends.{Ends, Ends-bind, Ends-any}
use gov_flow.Paging.{paging}
use gov_flow.Paging.Reads.{All-select, All-sort_by, All-map, Ends-list_page}
use gov_flow.Workflows.Service.{
  ListWorkflows, filters_of, excludes_all, scoped_filters, list_workflows,
}

-- The requester may read the workflow.
abbrev pub IsReadable : Option Requester → WorkflowDetails → Type 0
IsReadable r x = can_access (some x.department_id) r ≡ true

in_scope :
    (scope : DepartmentScope) (f : WorkflowFilters) (w : Workflow)
    → workflow_matches (scoped_filters scope f) w ≡ true
    → column_is w.department_id (scope_filter scope) ≡ true
in_scope scope f w h = elim (Bool-cases scope.scoped) [
  | inl e ↦ let g = rw e at h in rw e (first _ _ _ g)
  | inr e ↦ rw e refl
]
  where
    first : (a b c : Bool) → (a && b && c) ≡ true → a ≡ true
    first a b c h = ground arith

rows-IsReadable :
    (q : ListWorkflows) (d : Db)
    → IsCanonical q.requester
    → is_closed (resolve_list_department_scope q.requester) ≡ false
    → All (IsReadable q.requester) (
        workflow_rows (scoped_filters (resolve_list_department_scope q.requester) (filters_of q)) d)
unfolding workflow_rows
rows-IsReadable q d c o =
    let scope = resolve_list_department_scope q.requester in
    All-map _ (with_names d) _ (
      All-sort_by _ newer_workflow _ (
        All-select _ (workflow_matches (scoped_filters scope (filters_of q))) d.workflows (λ x h.
          listed-readable q.requester x.department_id c o (in_scope scope (filters_of q) x h))))

open_scope : (a b : Bool) → (a || b) ≡ false → a ≡ false
open_scope a b h = ground arith

-- For a requester whose department is written as the database writes it, and in any environment:
-- `listWorkflows` throws, or each workflow on the page that it returns is one that the requester may
-- read, whatever department the query asked for.
pub list_workflows-IsReadable :
    (env : Env) (q : ListWorkflows) (w : World)
    → IsCanonical q.requester
    → Ends (λ page v. All (IsReadable q.requester) page.items) (list_workflows env q w)
unfolding list_workflows pure
list_workflows-IsReadable env q w c =
    let scope = resolve_list_department_scope q.requester in
    Ends-bind (λ u v. Unit) _ (require_valid "Validation failed" _) _ w
      (Ends-any (λ u v. Unit) _ _ (λ u v. tt))
      (λ u v h. elim (Bool-cases (excludes_all scope (filters_of q).department_id)) [
        | inl e ↦ rw e tt
        | inr e ↦ rw e (
            Ends-list_page (IsReadable q.requester) env _ (paging env q.page q.limit) v
              (λ d. rows-IsReadable q d c (open_scope _ _ e)))
      ])
