-- ===== src/Access/Scope.antt =====
-- A list query and a read of a single row agree on what a requester may see.
use gov_flow.Prelude.{
  String, true, false, ◌≡◌, refl, ◌↔◌, Option, none, some, arith, eq_iff, ◌⊎◌, inl, inr, Bool-cases,
}
use gov_flow.Js.Text.{is_empty_text}
use gov_flow.Database.{Role, admin, manager, operator}
use gov_flow.Access.{
  Requester, can_access, can_access_as, DepartmentScope, resolve_list_department_scope,
  or_null_column, has_text, same_column,
}

-- `department_id = $n`, where the scope has a department.
abbrev pub InDepartment : Option String → Option String → Type 0
InDepartment none target = ⊥
InDepartment (some d) target = target ≡ some d

-- The rows that a list query under a scope can return: all of them, those of one department, or,
-- for a scope without a department, none (the services answer such a query with an empty page).
abbrev pub InScope : DepartmentScope → Option String → Type 0
InScope scope target = (scope.scoped ≡ false) ⊎ InDepartment scope.department_id target

has_text→not_null : (own : Option String) → has_text own ≡ true → or_null_column own ≡ own
has_text→not_null none h = cc
has_text→not_null (some s) h = ground arith

blank→null : (own : Option String) → has_text own ≡ false → or_null_column own ≡ none
blank→null none h = refl
blank→null (some s) h = ground arith

same_column_iff : (a b : Option String) → (same_column a b ≡ true) ↔ (a ≡ b)
same_column_iff none none = ground arith
same_column_iff none (some b) = ground arith
same_column_iff (some a) none = ground arith
same_column_iff (some a) (some b) = ground (arith, eq_iff a b)

manager_iff :
    (own target : Option String)
    → (can_access_as manager own target ≡ true) ↔ InDepartment (or_null_column own) target
manager_iff none target = (λ h. cc, λ h. absurd h)
manager_iff (some s) target = elim (Bool-cases (is_empty_text s)) [
  | inl e ↦ rw e (λ h. cc, λ h. absurd h)
  | inr e ↦ rw e (same_column_iff target (some s))
]

-- For a row that exists and a requester who is logged in: `canAccessExecution` (and likewise
-- `canAccessWorkflow`) lets the requester read the row exactly if the scope of the requester's list
-- queries takes the row in. An ADMIN sees every row, a MANAGER those of the own department, if there
-- is one, and an OPERATOR none.
pub can_access-InScope :
    (target : Option String) (r : Requester)
    → (can_access (some target) (some r) ≡ true)
      ↔ InScope (resolve_list_department_scope (some r)) target
unfolding can_access resolve_list_department_scope
can_access-InScope target r = by_role r.role
  where
    by_role :
        (role : Role)
        → (can_access_as role r.department_id target ≡ true)
          ↔ InScope
              (elim role [
                | admin ↦ record { scoped = false; department_id = none }
                | manager ↦ record { scoped = true; department_id = or_null_column r.department_id }
                | operator ↦ record { scoped = true; department_id = none }
              ])
              target
    by_role admin = (λ h. inl refl, λ h. refl)
    by_role manager = (
      λ h. inr ((manager_iff r.department_id target).0 h),
      elim [ inl e ↦ cc | inr d ↦ (manager_iff r.department_id target).1 d ],
    )
    by_role operator = (λ h. cc, elim [ inl e ↦ cc | inr d ↦ absurd d ])
