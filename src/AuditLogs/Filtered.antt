-- ===== src/AuditLogs/Filtered.antt =====
-- What the list of audit logs shows.
use gov_flow.Prelude.{
  ℕ, ◌≤◌, String, Bool, true, false, ◌&&◌, ◌≡◌, refl, ◌⊎◌, inl, inr, Option, none, some, eq_iff,
  arith, ◌==◌, append_empty, All, Bool-cases, List, [], ap, sym, ◌∙◌,
}
use gov_flow.Js.Value.{Value, str, null, truthy, text_of, or_value}
use gov_flow.Database.{Db, AuditLog}
use gov_flow.Validators.AuditFilters.{Dates, validate_list_audit_logs_filters}
use gov_flow.Paging.{paging}
use gov_flow.Paging.Reads.{All-select, All-sort_by, Ends-list_page}
use gov_flow.Runtime.{Env, World, err, require_valid}
use gov_flow.Runtime.Ends.{Ends, Ends-bind, Ends-query}
use gov_flow.Runtime.Atomic.{Ends-require_valid}
use gov_flow.Errors.{FieldError}
use gov_flow.Js.Text.{trim, is_empty_text}
use gov_flow.Validators.Common.{optional_filter}
use gov_flow.AuditLogs.Listing.{
  ListAuditLogs, trimmed_filter, audit_filters_of, text_is, is_from, is_until, is_after, is_before,
  log_matches, newer_log, log_rows, is_timestamp, invalid_timestamp, list_audit_logs,
}

-- A column has the text that the query asks for without the spaces around it, if it asks for one.
abbrev pub IsAsked : String → Value → Type 0
IsAsked s v = (truthy v ≡ false) ⊎ (s ≡ trim (text_of v))

-- A filter that passed its validation is the text that the query asks for.
trimmed_filter-asked :
    (field label : String) (max : ℕ) (max_text : String) (v : Value)
    → optional_filter field label max max_text v ≡ []
    → truthy v ≡ true
    → trimmed_filter v ≡ some (trim (text_of v))
unfolding optional_filter
trimmed_filter-asked field label max max_text (str s) valid h =
    elim (Bool-cases (is_empty_text (trim s))) [
      | inl e ↦ ground (arith, e)
      | inr e ↦ rw (h, e) refl
    ]
trimmed_filter-asked field label max max_text v valid h = ground arith

asked :
    (field label : String) (max : ℕ) (max_text s : String) (v : Value)
    → optional_filter field label max max_text v ≡ []
    → text_is s (trimmed_filter v) ≡ true
    → IsAsked s v
asked field label max max_text s v valid h = elim (Bool-cases (truthy v)) [
  | inl a ↦
      inr
        (same (ap (text_is s) (sym (trimmed_filter-asked field label max max_text v valid a)) ∙ h))
  | inr a ↦ inl a
]
  where
    same : (s == trim (text_of v)) ≡ true → s ≡ trim (text_of v)
    same e = ground (arith, eq_iff s (trim (text_of v)))

module _ (dates : Dates) where
  -- A bound of the query is not set, or it is a time that is in order with the row's.
  abbrev pub IsBound : (ℕ → Type 0) → Value → Type 0
  IsBound P v = (truthy v ≡ false) ⊎ ((t : ℕ) × (dates.timestamp v ≡ some t) × P t)

  -- What a row is that the query asks for.
  pub record IsListed (q : ListAuditLogs) (x : AuditLog) : Type 0 where
    pub action : IsAsked x.action q.action
    pub entity : IsAsked x.entity q.entity
    pub from : IsBound (λ t. t ≤ x.created_at) q.start_date
    pub until : IsBound (λ t. x.created_at ≤ t) q.end_date

  after-IsBound : (time : ℕ) (v : Value) → is_after dates time v ≡ true → IsBound (λ t. t ≤ time) v
  after-IsBound time v h = elim (Bool-cases (truthy v)) [
    | inl a ↦ inr (by_bound (dates.timestamp v) (ground arith))
    | inr a ↦ inl a
  ]
    where
      by_bound : (o : Option ℕ) → is_from dates time o ≡ true → (t : ℕ) × (o ≡ some t) × (t ≤ time)
      by_bound none e = ground arith
      by_bound (some t) e = (t, refl, ground arith)

  before-IsBound :
      (time : ℕ) (v : Value) → is_before dates time v ≡ true → IsBound (λ t. time ≤ t) v
  before-IsBound time v h = elim (Bool-cases (truthy v)) [
    | inl a ↦ inr (by_bound (dates.timestamp v) (ground arith))
    | inr a ↦ inl a
  ]
    where
      by_bound : (o : Option ℕ) → is_until dates time o ≡ true → (t : ℕ) × (o ≡ some t) × (time ≤ t)
      by_bound none e = ground arith
      by_bound (some t) e = (t, refl, ground arith)

  -- The bound that the query is made with
  set_bound : (v : Value) → truthy v ≡ true → or_value v null ≡ v
  set_bound v h = rw h refl

  from-IsBound :
      (time : ℕ) (v : Value)
      → is_after dates time (or_value v null) ≡ true
      → IsBound (λ t. t ≤ time) v
  from-IsBound time v h = elim (Bool-cases (truthy v)) [
    | inl a ↦ after-IsBound time v (ap (is_after dates time) (sym (set_bound v a)) ∙ h)
    | inr a ↦ inl a
  ]

  until-IsBound :
      (time : ℕ) (v : Value)
      → is_before dates time (or_value v null) ≡ true
      → IsBound (λ t. time ≤ t) v
  until-IsBound time v h = elim (Bool-cases (truthy v)) [
    | inl a ↦ before-IsBound time v (ap (is_before dates time) (sym (set_bound v a)) ∙ h)
    | inr a ↦ inl a
  ]

  four :
      (a b c d : Bool)
      → (a && b && c && d) ≡ true
      → (a ≡ true) × (b ≡ true) × (c ≡ true) × (d ≡ true)
  four a b c d h = ground arith

  abbrev failures : ListAuditLogs → List FieldError
  failures q = validate_list_audit_logs_filters dates q.action q.entity q.start_date q.end_date

  valid_texts :
      (q : ListAuditLogs)
      → failures q ≡ []
      → (optional_filter "action" "Action" 100 "100" q.action ≡ [])
        × (optional_filter "entity" "Entity" 100 "100" q.entity ≡ [])
  unfolding validate_list_audit_logs_filters
  valid_texts q h = let (a, rest) = append_empty _ _ h in (a, (append_empty _ _ rest).0)

  matches-IsListed :
      (q : ListAuditLogs) (x : AuditLog)
      → failures q ≡ []
      → log_matches dates (audit_filters_of q) x ≡ true
      → IsListed q x
  matches-IsListed q x valid h =
      let f = audit_filters_of q in
      let (a, b, c, d) =
        four (text_is x.action f.action) (text_is x.entity f.entity)
          (is_after dates x.created_at f.start_date) (is_before dates x.created_at f.end_date) h in
      let (action, entity) = valid_texts q valid in
      record {
        action = asked "action" "Action" 100 "100" x.action q.action action a;
        entity = asked "entity" "Entity" 100 "100" x.entity q.entity entity b;
        from = from-IsBound x.created_at q.start_date c;
        until = until-IsBound x.created_at q.end_date d;
      }

  rows-IsListed :
      (q : ListAuditLogs) (d : Db)
      → failures q ≡ []
      → All (IsListed q) (log_rows dates (audit_filters_of q) d)
  unfolding log_rows
  rows-IsListed q d valid = All-sort_by _ newer_log _ (
      All-select _ (log_matches dates (audit_filters_of q)) d.audit_logs
        (λ x. matches-IsListed q x valid))

  -- In any environment: `listAuditLogs` throws, or each row on the page that it returns has the
  -- action and the entity that the query asks for, without the spaces around them, if it asks for
  -- one, and was written between the two dates that it gives, the dates included.
  pub list_audit_logs-IsListed :
      (env : Env) (q : ListAuditLogs) (w : World)
      → Ends (λ page v. All (IsListed q) page.items) (list_audit_logs dates env q w)
  unfolding list_audit_logs
  list_audit_logs-IsListed env q w =
      let f = audit_filters_of q in
      Ends-bind (λ u v. failures q ≡ []) _ (require_valid "Validation failed" _) _ w
        (Ends-require_valid _ _ (λ u v. failures q ≡ []) w (λ e. e))
        (λ u v valid.
          elim (Bool-cases (is_timestamp dates f.start_date && is_timestamp dates f.end_date)) [
            | inl e ↦ rw e (
                Ends-list_page (IsListed q) env (log_rows dates f) (paging env q.page q.limit) v
                  (λ d. rows-IsListed q d valid))
            | inr e ↦ rw e (Ends-query env _ (λ now d. err invalid_timestamp) v (λ n a u e2. cc))
          ])
