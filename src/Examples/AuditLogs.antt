-- ===== src/Examples/AuditLogs.antt =====
-- The theorem on the list of audit logs: two rows, of which one is old enough.
use gov_flow.Prelude.{ℕ, [], ◌∷◌, Option, none, some, All}
use gov_flow.Js.Value.{Value, whole, pos, num, nat, null, str, undefined}
use gov_flow.Database.{AuditLog}
use gov_flow.Validators.AuditFilters.{Dates}
use gov_flow.Runtime.{World}
use gov_flow.Runtime.Ends.{Ends}
use gov_flow.AuditLogs.Listing.{ListAuditLogs, list_audit_logs}
use gov_flow.AuditLogs.Filtered.{IsListed, list_audit_logs-IsListed}
use gov_flow.Examples.World.{quiet, pending_world}

-- Dates as numbers
abbrev time_of : Value → Option ℕ
time_of (num (whole (pos n))) = some n
time_of v = none

abbrev numeric : Dates
numeric = record { to_time = time_of; timestamp = time_of }

abbrev login_at : ℕ → AuditLog
login_at time = record {
  entry = record {
    action = "LOGIN_SUCCESS";
    entity = "user";
    entity_id = null;
    actor_id = null;
    metadata = null;
  };
  created_at = time;
}

abbrev logged_world : World
logged_world = record pending_world {
  db = record pending_world.db { audit_logs = login_at 10 ∷ login_at 99 ∷ [] };
}

abbrev logins_until_20 : ListAuditLogs
logins_until_20 = record {
  page = undefined;
  limit = undefined;
  action = str " LOGIN_SUCCESS ";
  entity = undefined;
  start_date = nat 5;
  end_date = nat 20;
}

list_audit_logs-IsListed_example :
    Ends
      (λ page v. All (IsListed numeric logins_until_20) page.items)
      (list_audit_logs numeric quiet logins_until_20 logged_world)
list_audit_logs-IsListed_example =
    list_audit_logs-IsListed numeric quiet logins_until_20 logged_world
