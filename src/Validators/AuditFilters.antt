-- ===== src/Validators/AuditFilters.antt =====
-- src/validators/auditLogs.validator.js, the part that checks the filters of the list
use gov_flow.Prelude.{
  ℕ, String, Bool, true, false, not, ◌||◌, List, [], ◌++◌, Option, some, is_some, ltb,
  if◌then◌else◌,
}
use gov_flow.Errors.{FieldError}
use gov_flow.Js.Text.{is_empty_text}
use gov_flow.Js.Value.{Value, undefined, null, str, truthy}
use gov_flow.Validators.Common.{field_error, date_error, optional_filter}

-- What JavaScript and PostgreSQL read in a value as a time, counted from a moment before all of
-- them: `new Date(value).getTime()`, `none` for NaN, and a parameter compared with a timestamp.
pub record Dates : Type 0 where
  pub to_time : Value → Option ℕ
  pub timestamp : Value → Option ℕ

module _ (dates : Dates) where
  -- `value === undefined || value === null || value === ""`
  abbrev pub is_unset : Value → Bool
  is_unset undefined = true
  is_unset null = true
  is_unset (str s) = is_empty_text s
  is_unset v = false

  unfoldable pub validate_optional_date : Value → String → String → List FieldError
  validate_optional_date value field label =
      if is_unset value || is_some (dates.to_time value) then [] else date_error field label

  abbrev pub in_order : Option ℕ → Option ℕ → List FieldError
  in_order (some start) (some end) =
      if ltb end start
      then field_error "dateRange" "Start date must be before or equal to end date"
      else []
  in_order _ _ = []

  unfoldable pub validate_date_range : Value → Value → List FieldError
  validate_date_range start_date end_date =
      if not (truthy start_date) || not (truthy end_date)
      then []
      else in_order (dates.to_time start_date) (dates.to_time end_date)

  unfoldable pub validate_list_audit_logs_filters :
      (action entity start_date end_date : Value) → List FieldError
  unfolding optional_filter validate_optional_date validate_date_range
  validate_list_audit_logs_filters action entity start_date end_date =
      optional_filter "action" "Action" 100 "100" action
      ++ (optional_filter "entity" "Entity" 100 "100" entity
          ++ (validate_optional_date start_date "startDate" "Start date"
              ++ (validate_optional_date end_date "endDate" "End date"
                  ++ validate_date_range start_date end_date)))
