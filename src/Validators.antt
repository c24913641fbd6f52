-- ===== src/Validators.antt =====
-- The request validators of src/validators/: each returns the entries that the source pushes onto
-- its `errors` array, in that order.
pub mod Common
pub mod Uuid
pub mod WorkflowSteps
pub mod WorkflowExecutions
pub mod AuditLogs
pub mod AuditFilters
pub mod Workflows
pub mod Users
