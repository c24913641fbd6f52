-- ===== src/Workflows.antt =====
-- src/modules/workflows and src/modules/workflow-steps: workflows and the steps that they are made
-- of.
pub mod Repository
pub mod StepRepository
pub mod Service
pub mod StepService
