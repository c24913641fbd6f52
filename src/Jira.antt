-- ===== src/Jira.antt =====
-- src/modules/jira: readiness, the classes of failure, and the calls of the REST API.
pub mod Failures
pub mod Service
pub mod Lookup
pub mod Readiness
