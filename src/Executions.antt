-- ===== src/Executions.antt =====
-- src/modules/workflow-executions and src/modules/workflow-execution-steps: the rows of executions
-- and of their steps, and who may see them.
pub mod Repository
pub mod StepRepository
pub mod Lifecycle
pub mod Rows
pub mod Service
