-- ===== src/Access/Listing.antt =====
-- The rows that a list query returns under the filter of a requester's scope.
use gov_flow.Prelude.{
  String, Bool, true, false, not, ◌&&◌, ◌≡◌, refl, Option, none, some, arith, eq_iff, if◌then◌else◌,
  Bool-cases, inl, inr,
}
use gov_flow.Js.Text.{to_lower_case, is_empty_text}
use gov_flow.Database.{Role, admin, manager, operator}
use gov_flow.Workflows.Repository.{column_is}
use gov_flow.Access.{
  Requester, can_access, can_access_as, same_column, has_text, or_null_column, DepartmentScope,
  resolve_list_department_scope,
}

-- A department id as a UUID column gives it
abbrev pub IsLower : Option String → Type 0
IsLower none = Unit {0}
IsLower (some d) = to_lower_case d ≡ d

-- The requester's own department is as the database gives it.
abbrev pub IsCanonical : Option Requester → Type 0
IsCanonical none = Unit {0}
IsCanonical (some r) = IsLower r.department_id

-- The scope is that of a requester without a department.
abbrev pub is_closed : DepartmentScope → Bool
is_closed scope = scope.scoped && not (has_text scope.department_id)

abbrev pub scope_filter : DepartmentScope → Option String
scope_filter scope = if scope.scoped then scope.department_id else none

same_as_filter :
    (target : Option String) (d : String)
    → to_lower_case d ≡ d
    → column_is target (some d) ≡ true
    → same_column target (some d) ≡ true
same_as_filter none d c h = h
same_as_filter (some t) d c h = ground (arith, c, h, eq_iff t d, eq_iff t (to_lower_case d))

own_department :
    (own target : Option String)
    → IsLower own
    → not (has_text (or_null_column own)) ≡ false
    → column_is target (or_null_column own) ≡ true
    → has_text own && same_column target own ≡ true
own_department none target c = λ o h. cc
own_department (some s) target c = elim (Bool-cases (is_empty_text s)) [
  | inl e ↦ rw e (λ o h. cc)
  | inr e ↦ rw (e, e) (λ o h. same_as_filter target s c h)
]

pub listed-readable :
    (r : Option Requester) (target : Option String)
    → IsCanonical r
    → is_closed (resolve_list_department_scope r) ≡ false
    → column_is target (scope_filter (resolve_list_department_scope r)) ≡ true
    → can_access (some target) r ≡ true
unfolding can_access resolve_list_department_scope
listed-readable none target c = λ o h. cc
listed-readable (some r) target c = by_role r.role
  where
    by_role :
        (role : Role)
        → let scope : DepartmentScope = (elim role [
          | admin ↦ record { scoped = false; department_id = none }
          | manager ↦ record { scoped = true; department_id = or_null_column r.department_id }
          | operator ↦ record { scoped = true; department_id = none }
        ]) in
          is_closed scope ≡ false
          → column_is target (scope_filter scope) ≡ true
          → can_access_as role r.department_id target ≡ true
    by_role admin o h = refl
    by_role manager o h = own_department r.department_id target c o h
    by_role operator o h = cc
