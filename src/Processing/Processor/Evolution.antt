-- ===== src/Processing/Processor/Evolution.antt =====
-- Every run of the processor and of the worker lets the executions advance.
use gov_flow.Prelude.{String, Bool, List, [], ◌∷◌, ◌++◌, Option, none, some, arith}
use gov_flow.Js.Value.{Value}
use gov_flow.Errors.{Error}
use gov_flow.Database.{
  Execution, ExecutionStep, ExecutionStatus, StepStatus, pending, completed, failed,
}
use gov_flow.Executions.Repository.{ExecutionDetails}
use gov_flow.Executions.StepRepository.{StepDetails}
use gov_flow.Executions.Lifecycle.{Evolves}
use gov_flow.Executions.Lifecycle.Statements.{
  find_by_id-Evolves, find_by_execution_id-Evolves, claim_pending_step-Evolves,
  update_status-Evolves, insert_entry-Evolves, claim_pending_execution-Evolves,
  finalize_running_execution-Evolves,
}
use gov_flow.Validators.AuditLogs.{AuditPayload}
use gov_flow.AuditLogs.{safe_register_audit_log}
use gov_flow.Runtime.{Env}
use gov_flow.Runtime.Keeps.{Keeps, IsRely, Keeps-pure, Keeps-throw, Keeps-bind, Keeps-query}
use gov_flow.Processing.Handlers.Frame
use gov_flow.Processing.Handlers.Frame.{flow, safe_register-Keeps}
use gov_flow.Processing.Handlers.{handle_workflow_step_with_context}
use gov_flow.Processing.Processor.{
  Context, StepOutput, proceed, stop, finalize_concurrently_claimed_execution, finalize_failed,
  report_failed, report_completed, on_unclaimed_at, on_claimed, after_claim, unclaimable,
  skip_completed, on_unclaimed, complete_step, reuse_output, run_handler, revert_step, fail_step,
  on_handler_error, process_step, finalize_completed, process_steps, claim_execution,
  process_workflow_execution,
}
use gov_flow.Processing.Worker.{JobData, report_at, report, run_job}

module _ {env : Env} (rely : IsRely env Evolves) where
  audit-Keeps : (p : AuditPayload) → Keeps Evolves (safe_register_audit_log env p)
  audit-Keeps p = safe_register-Keeps rely insert_entry-Evolves p

  ruleset effects = (flow, audit-Keeps)

  handler-Keeps :
      (step : StepDetails) (x : ExecutionDetails)
      → Keeps Evolves (handle_workflow_step_with_context env step x)
  handler-Keeps step x = Frame.handler-Keeps rely insert_entry-Evolves step x

  module _ (c : Context) where
    concurrently-Keeps : Keeps Evolves (finalize_concurrently_claimed_execution env c)
    unfolding finalize_concurrently_claimed_execution
    concurrently-Keeps = search (effects, find_by_id-Evolves, rely) depth 12

    report_failed-Keeps :
        (step : StepDetails) (error : String) (o : Option Execution)
        → Keeps Evolves (report_failed env c step error o)
    report_failed-Keeps step error none = concurrently-Keeps
    report_failed-Keeps step error (some x) = search (effects, rely) depth 12

    finalize_failed-Keeps :
        (outputs : List StepOutput) (step : StepDetails) (error : String)
        → Keeps Evolves (finalize_failed env c outputs step error)
    unfolding finalize_failed
    finalize_failed-Keeps outputs step error =
        Keeps-bind rely _ _
          (Keeps-query rely _
            (finalize_running_execution-Evolves c.execution_id failed _ (omega arith)))
          (report_failed-Keeps step error)

    unclaimable-Keeps : (step : StepDetails) → Keeps Evolves (unclaimable env c step)
    unfolding unclaimable
    unclaimable-Keeps step = search (effects, rely) depth 12

    on_unclaimed-Keeps :
        (s : StepStatus) (outputs : List StepOutput) (step : StepDetails)
        → Keeps Evolves (on_unclaimed_at env c s outputs step)
    unfolding skip_completed
    on_unclaimed-Keeps completed outputs step = search (effects, rely) depth 12
    on_unclaimed-Keeps failed outputs step = search (flow, finalize_failed-Keeps, rely) depth 12
    on_unclaimed-Keeps _ outputs step = unclaimable-Keeps step

    complete_step-Keeps :
        (step : StepDetails) (v : Value) → Keeps Evolves (complete_step env c step v)
    unfolding complete_step
    complete_step-Keeps step v = search (effects, update_status-Evolves, rely) depth 12

    on_handler_error-Keeps :
        (outputs : List StepOutput) (step : StepDetails) (error : Error)
        → Keeps Evolves (on_handler_error env c outputs step error)
    unfolding on_handler_error revert_step fail_step
    on_handler_error-Keeps outputs step error =
        search (effects, update_status-Evolves, finalize_failed-Keeps, rely) depth 12

    on_claimed-Keeps :
        (reason : Option String) (outputs : List StepOutput) (step : StepDetails)
        → Keeps Evolves (on_claimed env c reason outputs step)
    unfolding reuse_output run_handler
    on_claimed-Keeps (some reason) outputs step =
        search (effects, complete_step-Keeps, rely) depth 12
    on_claimed-Keeps none outputs step =
        search (effects, handler-Keeps, complete_step-Keeps, on_handler_error-Keeps, rely) depth 12

    after_claim-Keeps :
        (o : Option ExecutionStep) (outputs : List StepOutput) (step : StepDetails)
        → Keeps Evolves (after_claim env c o outputs step)
    unfolding on_unclaimed
    after_claim-Keeps none outputs step = on_unclaimed-Keeps step.status outputs step
    after_claim-Keeps (some row) outputs step = on_claimed-Keeps _ outputs step

    process_step-Keeps :
        (outputs : List StepOutput) (step : StepDetails)
        → Keeps Evolves (process_step env c outputs step)
    unfolding process_step
    process_step-Keeps outputs step =
        search (effects, claim_pending_step-Evolves, after_claim-Keeps, rely) depth 12

    report_completed-Keeps :
        (outputs : List StepOutput) (o : Option Execution)
        → Keeps Evolves (report_completed env c outputs o)
    report_completed-Keeps outputs none = concurrently-Keeps
    report_completed-Keeps outputs (some x) = search (effects, rely) depth 12

    process_steps-Keeps :
        (outputs : List StepOutput) (steps : List StepDetails)
        → Keeps Evolves (process_steps env c outputs steps)
    unfolding process_steps finalize_completed
    process_steps-Keeps outputs [] =
        Keeps-bind rely _ _
          (Keeps-query rely _
            (finalize_running_execution-Evolves c.execution_id completed _ (omega arith)))
          (report_completed-Keeps outputs)
    process_steps-Keeps outputs (step ∷ rest) =
        Keeps-bind rely _ _ (process_step-Keeps outputs step) (elim [
          | proceed o ↦ process_steps-Keeps (outputs ++ o ∷ []) rest
          | stop x ↦ Keeps-pure rely x
        ])

  claim_execution-Keeps :
      (id : String) (x : ExecutionDetails) → Keeps Evolves (claim_execution env id x)
  unfolding claim_execution
  claim_execution-Keeps id x = search (effects, claim_pending_execution-Evolves, rely) depth 12

  pub process-Keeps : (id by : Value) → Keeps Evolves (process_workflow_execution env id by)
  unfolding process_workflow_execution
  process-Keeps id by =
      search
        (
          effects, find_by_id-Evolves, find_by_execution_id-Evolves, claim_execution-Keeps,
          process_steps-Keeps, rely,
        )
        depth 30

  report-Keeps :
      (id : Value) (s : ExecutionStatus) (x : Execution) → Keeps Evolves (report_at env s id x)
  report-Keeps id failed x = Keeps-throw rely _
  report-Keeps id pending x = Keeps-pure rely _
  report-Keeps id _ x = Keeps-pure rely _

  pub run_job-Keeps :
      (production : Bool) (job : JobData) → Keeps Evolves (run_job env production job)
  unfolding run_job report
  run_job-Keeps production job = search (flow, process-Keeps, report-Keeps, rely) depth 30
