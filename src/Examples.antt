-- ===== src/Examples.antt =====
-- A small world for the tests, and the theorems at inputs in it.
pub mod World
mod Processing
mod Jira
mod Access
mod Recovery
mod Validators
mod Reentry
mod Services
mod Accounts
mod Queue
mod Config
mod Denied
mod AuditLogs
