-- ===== src/AuditLogs/Safe.antt =====
-- src/utils/safeAuditLog.js: whatever becomes of an entry, the caller goes on.
use gov_flow.Prelude.{◌≡◌, refl}
use gov_flow.Validators.AuditLogs.{AuditPayload}
use gov_flow.AuditLogs.{register, safe_register_audit_log}
use gov_flow.Runtime.{Env, World, Result, ok, err, pure, ◌>>◌, try, recover}

recover-ok :
    (r : Result (Unit {0})) (w : World)
    → recover r (λ error. pure tt) w ≡ (ok tt, (recover r (λ error. pure tt) w).1)
unfolding pure
recover-ok (ok tt) w = refl
recover-ok (err e) w = refl

pub safe_register-ok :
    (env : Env) (p : AuditPayload) (w : World)
    → safe_register_audit_log env p w ≡ (ok tt, (safe_register_audit_log env p w).1)
unfolding safe_register_audit_log try
safe_register-ok env p w =
    recover-ok ((register env p >> pure tt) w).0 ((register env p >> pure tt) w).1
