-- ===== src/Processing/Worker.antt =====
-- src/workers/workflowProcessing.worker.js: what the worker does with one job of the queue.
use gov_flow.Prelude.{String, Bool, not, ◌&&◌}
use gov_flow.Js.Value.{Value, str, get, truthy, is_true, or_value}
use gov_flow.Errors.{plain_error, unrecoverable_error}
use gov_flow.Database.{Execution, ExecutionStatus, failed}
use gov_flow.Runtime.{Env, M, pure, throw, ◌>>=◌, ◌>>◌, require, require_some}
use gov_flow.Processing.Handlers.{failure_text}
use gov_flow.Processing.Processor.{process_workflow_execution}

-- `job.data`
pub record JobData : Type 0 where
  pub execution_id : Value
  pub processed_by : Value
  pub simulate_technical_failure : Value

pub record JobResult : Type 0 where
  pub execution_id : Value
  pub status : ExecutionStatus

-- `result.result?.failedStep?.error || …`
abbrev pub business_reason : (Value → String) → Value → String
business_reason to_text result = failure_text to_text (
    or_value (get "error" (get "failedStep" result))
      (str "Workflow execution failed by business rule"))

module _ (env : Env) where
  abbrev pub report_at : ExecutionStatus → Value → Execution → M JobResult
  report_at failed id x = throw (unrecoverable_error (business_reason env.to_text x.result))
  report_at s id x = pure (record { execution_id = id; status = s })

  unfoldable pub report : Value → Execution → M JobResult
  report id x = report_at x.status id x

  unfoldable pub run_job : Bool → JobData → M JobResult
  run_job production job = do
    require (truthy job.execution_id) (unrecoverable_error "Job data must include executionId")
    require (truthy job.processed_by) (unrecoverable_error "Job data must include processedBy")
    require (not (not production && is_true job.simulate_technical_failure))
        (plain_error "Simulated technical failure")
    result ← process_workflow_execution env job.execution_id job.processed_by
    x ← require_some result (plain_error "Cannot read properties of undefined")
    report job.execution_id x
