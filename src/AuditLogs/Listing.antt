-- ===== src/AuditLogs/Listing.antt =====
-- `listAuditLogs` of src/modules/audit-logs/auditLogs.service.js and the queries that it makes.
use gov_flow.Prelude.{
  ℕ, String, Bool, true, false, ◌&&◌, List, Option, none, some, is_some, leb, ◌==◌, select,
  if◌then◌else◌,
}
use gov_flow.Js.Text.{trim}
use gov_flow.Js.Value.{Value, truthy, text_of, or_value, null}
use gov_flow.Access.{or_null_column}
use gov_flow.Database.{Db, AuditLog}
use gov_flow.Executions.Repository.{sort_by}
use gov_flow.Validators.AuditFilters.{Dates, validate_list_audit_logs_filters}
use gov_flow.Paging.{Page, paging, list_page}
use gov_flow.Runtime.{Env, M, err, ◌>>◌, require_valid, query}
use gov_flow.Runtime.Insert.{database_error}
use gov_flow.Errors.{Error}

-- The arguments of `listAuditLogs`
pub record ListAuditLogs : Type 0 where
  pub page : Value
  pub limit : Value
  pub action : Value
  pub entity : Value
  pub start_date : Value
  pub end_date : Value

pub record AuditFilters : Type 0 where
  pub action : Option String
  pub entity : Option String
  pub start_date : Value
  pub end_date : Value

-- `value ? value.trim() : null`, and NULL for an empty text
abbrev pub trimmed_filter : Value → Option String
trimmed_filter v = if truthy v then or_null_column (some (trim (text_of v))) else none

-- `normalizedFilters`
abbrev pub audit_filters_of : ListAuditLogs → AuditFilters
audit_filters_of q = record {
  action = trimmed_filter q.action;
  entity = trimmed_filter q.entity;
  start_date = or_value q.start_date null;
  end_date = or_value q.end_date null;
}

abbrev pub text_is : String → Option String → Bool
text_is s none = true
text_is s (some t) = s == t

-- `ORDER BY created_at DESC`
abbrev pub newer_log : AuditLog → AuditLog → Bool
newer_log a b = leb b.created_at a.created_at

-- What a bound that PostgreSQL does not read as a time makes of a query
abbrev pub invalid_timestamp : Error
invalid_timestamp = database_error "invalid input syntax for type timestamp" "22007" none

module _ (dates : Dates) where
  -- `created_at >= $n` and `created_at <= $n`
  abbrev pub is_from : ℕ → Option ℕ → Bool
  is_from time none = false
  is_from time (some bound) = leb bound time

  abbrev pub is_until : ℕ → Option ℕ → Bool
  is_until time none = false
  is_until time (some bound) = leb time bound

  abbrev pub is_after : ℕ → Value → Bool
  is_after time v = if truthy v then is_from time (dates.timestamp v) else true

  abbrev pub is_before : ℕ → Value → Bool
  is_before time v = if truthy v then is_until time (dates.timestamp v) else true

  -- `buildAuditLogsFiltersQuery`
  abbrev pub log_matches : AuditFilters → AuditLog → Bool
  log_matches f x =
      text_is x.action f.action
      && text_is x.entity f.entity
      && is_after x.created_at f.start_date
      && is_before x.created_at f.end_date

  -- The rows of `findAll` and `countAll` without LIMIT and OFFSET
  unfoldable pub log_rows : AuditFilters → Db → List AuditLog
  unfolding sort_by
  log_rows f d = sort_by newer_log (select (log_matches f) d.audit_logs)

  abbrev pub is_timestamp : Value → Bool
  is_timestamp v = if truthy v then is_some (dates.timestamp v) else true

  unfoldable pub list_audit_logs : Env → ListAuditLogs → M (Page AuditLog)
  unfolding validate_list_audit_logs_filters paging
  list_audit_logs env q = do
    require_valid "Validation failed"
        (validate_list_audit_logs_filters dates q.action q.entity q.start_date q.end_date)
    let f = audit_filters_of q
    if is_timestamp f.start_date && is_timestamp f.end_date
        then list_page env (log_rows f) (paging env q.page q.limit)
        else query env (λ now d. err invalid_timestamp)
