-- ===== src/Processing.antt =====
-- src/modules/workflow-processing and src/workers: the handlers of a step, the processor of an
-- execution, the worker that runs it for a job, and the recovery of executions that were left
-- RUNNING.
pub mod Handlers
pub mod Processor
pub mod Worker
pub mod Recovery
pub mod History
