-- ===== src/AuditLogs.antt =====
-- src/modules/audit-logs/auditLogs.service.js (`register`, `registerManual`; `listAuditLogs` is in
-- the child) and src/utils/safeAuditLog.js.
pub mod Safe
pub mod Listing
pub mod Filtered
use gov_flow.Prelude.{ℕ, String, true, ◌&&◌, List, [], ◌∷◌, ◌++◌}
use gov_flow.Js.Text.{trim}
use gov_flow.Js.Value.{Value, bool, obj, text_of, spread, append_fields, object}
use gov_flow.Database.{Db, AuditEntry, AuditLog}
use gov_flow.Validators.AuditLogs.{
  AuditPayload, validate_create_audit_log, validate_create_manual_audit_log,
}
use gov_flow.Runtime.Insert.{check, fits, fits_value, value_too_long}
use gov_flow.Runtime.{Env, M, Result, ok, pure, ◌>>=◌, ◌>>◌, try, require_valid, query}

-- The INSERT of src/modules/audit-logs/auditLogs.repository.js.
unfoldable pub insert_entry : AuditEntry → ℕ → Db → Result (AuditLog × Db)
insert_entry e now d =
    let row : AuditLog = record { entry = e; created_at = now } in
    check (fits 100 e.action && fits 100 e.entity && fits_value 100 e.entity_id) value_too_long
      (ok (row, record d { audit_logs = d.audit_logs ++ row ∷ [] }))

-- The row of a payload that passed its validation.
abbrev pub entry_of : AuditPayload → Value → AuditEntry
entry_of p metadata = record {
  action = trim (text_of p.action);
  entity = trim (text_of p.entity);
  entity_id = p.entity_id;
  actor_id = p.actor_id;
  metadata = metadata;
}

module _ (env : Env) where
  unfoldable pub register : AuditPayload → M AuditLog
  register p = do
    require_valid "Validation failed" (validate_create_audit_log p)
    query env (insert_entry (entry_of p p.metadata))

  unfoldable pub register_manual : AuditPayload → M AuditLog
  register_manual p = do
    require_valid "Validation failed" (validate_create_manual_audit_log p)
    query env (
        insert_entry (
          entry_of p
            (obj (append_fields (spread p.metadata) (object (("manual", bool true) ∷ []))))))

  -- An entry that cannot be written is dropped: the caller goes on.
  unfoldable pub safe_register_audit_log : AuditPayload → M (Unit {0})
  safe_register_audit_log p = try (register p >> pure tt) (λ error. pure tt)
