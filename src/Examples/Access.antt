-- ===== src/Examples/Access.antt =====
-- The theorem on what a requester may see, at a manager and a row of another department.
use gov_flow.Prelude.{true, ◌≡◌, ◌↔◌, some}
use gov_flow.Database.{manager}
use gov_flow.Access.{Requester, can_access, resolve_list_department_scope}
use gov_flow.Access.Scope.{InScope, can_access-InScope}

abbrev roads_manager : Requester
roads_manager = record { id = "u1"; role = manager; department_id = some "roads" }

can_access-InScope_example :
    (can_access (some (some "water")) (some roads_manager) ≡ true)
    ↔ InScope (resolve_list_department_scope (some roads_manager)) (some "water")
can_access-InScope_example = can_access-InScope (some "water") roads_manager
