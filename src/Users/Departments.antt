-- ===== src/Users/Departments.antt =====
-- src/modules/departments: the repository and the service
use gov_flow.Prelude.{
  ℕ, String, Bool, true, not, List, [], ◌∷◌, ◌++◌, Option, ◌==◌, find, select, is_some,
  if◌then◌else◌,
}
use gov_flow.Errors.{Error, app_error}
use gov_flow.Js.Text.{trim, trim_column, has_value}
use gov_flow.Js.Value.{Value, str, obj, object, text_of, text_column}
use gov_flow.Database.{Db, Department}
use gov_flow.AuditLogs.{safe_register_audit_log}
use gov_flow.Validators.Users.{
  validate_create_department, validate_list_departments_filters, validate_department_id,
}
use gov_flow.Executions.Repository.{sort_by}
use gov_flow.Workflows.Repository.{department_key, find_department, flag_is}
use gov_flow.Workflows.Service.{active_filter}
use gov_flow.Paging.{Page, paging, list_page}
use gov_flow.Runtime.{
  Env, M, Result, ok, pure, throw, ◌>>=◌, ◌>>◌, try, require, require_some, require_valid, query,
  new_ids,
}
use gov_flow.Runtime.Insert.{check, is_new, unique_violation}
use gov_flow.Users.Platform.{Platform}

-- `LOWER(name) = LOWER($1)`
abbrev pub has_name : Platform → String → Department → Bool
has_name p name x = p.lower_sql x.name == p.lower_sql name

unfoldable pub find_by_name : Platform → String → ℕ → Db → Result (Option Department × Db)
find_by_name p name now d = ok (find (has_name p name) d.departments, d)

unfoldable pub find_department_by_id : String → ℕ → Db → Result (Option Department × Db)
find_department_by_id id now d = ok (find_department id d, d)

-- `ORDER BY name ASC`
abbrev pub name_order : Platform → Department → Department → Bool
name_order p x y = p.name_before x.name y.name

-- The rows of `findAll` and `countAll` without LIMIT and OFFSET
unfoldable pub department_rows : Platform → Option Bool → Db → List Department
unfolding sort_by
department_rows p active d =
    sort_by (name_order p) (select (λ x. flag_is x.is_active active) d.departments)

abbrev pub new_department : String → String → Option String → Department
new_department id name description = record {
  id = id;
  name = name;
  description = description;
  is_active = true;
}

-- The column is UNIQUE as it is written.
abbrev pub same_name : String → Department → Bool
same_name name x = x.name == name

-- `create`
unfoldable pub insert_department :
    String → String → Option String → ℕ → Db → Result (Department × Db)
insert_department id name description now d =
    check (is_new department_key id d.departments) (unique_violation "departments_pkey") (
      check (not (is_some (find (same_name name) d.departments)))
        (unique_violation "departments_name_key")
        (ok (
          new_department id name description,
          record d { departments = d.departments ++ new_department id name description ∷ [] },
        )))

-- The handler of `createDepartment`
unfoldable pub create_department_error : Error → Error
create_department_error e =
    if has_value e.code "23505" then app_error "Department with this name already exists" 409 else e

module _ (env : Env) (p : Platform) where
  unfoldable pub list_departments : (page limit is_active : Value) → M (Page Department)
  unfolding paging
  list_departments page limit is_active = do
    require_valid "Validation failed" (validate_list_departments_filters is_active)
    list_page env (department_rows p (active_filter is_active)) (paging env page limit)

  unfoldable pub get_department_by_id : String → M Department
  get_department_by_id id = do
    require_valid "Validation failed" (validate_department_id id)
    row ← query env (find_department_by_id id)
    require_some row (app_error "Department not found" 404)

  -- The body of the `try` of `createDepartment`
  unfoldable pub insert_and_audit_department : String → Option String → Value → M Department
  insert_and_audit_department name description created_by = do
    ids ← new_ids env
    created ← query env (insert_department (ids 0) name description)
    safe_register_audit_log env (record {
      action = str "DEPARTMENT_CREATED";
      entity = str "department";
      entity_id = str created.id;
      actor_id = created_by;
      metadata = obj (object (("name", str created.name) ∷ []));
    })
    pure created

  unfoldable pub create_department : (name description created_by : Value) → M Department
  unfolding trim trim_column insert_and_audit_department create_department_error
  create_department name description created_by = do
    require_valid "Validation failed" (validate_create_department name description)
    existing ← query env (find_by_name p (trim (text_of name)))
    require (not (is_some existing)) (app_error "Department with this name already exists" 409)
    try
        (insert_and_audit_department (trim (text_of name)) (trim_column (text_column description))
          created_by)
        (λ error. throw (create_department_error error))
