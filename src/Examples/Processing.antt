-- ===== src/Examples/Processing.antt =====
-- The theorems on the processing of executions, at inputs in the small world.
use gov_flow.Prelude.{String, true, false, ◌≡◌, refl, [], ◌∷◌, none, some, ◌==◌, ◌⊎◌}
use gov_flow.Js.Text.{to_lower_case}
use gov_flow.Js.Value.{Value, undefined, null, str, bool, obj, object}
use gov_flow.Errors.{Error, plain_error}
use gov_flow.Database.{Execution, ExecutionStep, pending, running}
use gov_flow.Database.Table.{lookup}
use gov_flow.Executions.Repository.{with_workflow, find_execution}
use gov_flow.Executions.StepRepository.{StepDetails, with_template, find_step}
use gov_flow.Executions.Lifecycle.{Evolves, Evolves-refl}
use gov_flow.Runtime.{
  Env, World, Result, ok, err, pure, throw, ◌>>=◌, try, require, require_valid, query, call_jira,
  await, rejected,
}
use gov_flow.Jira.Failures.{
  normalize_jira_error, business_message, normalize_unmapped, is_retryable_4xx,
}
use gov_flow.Validators.AuditLogs.{validate_create_audit_log}
use gov_flow.Jira.Service.{transition_issue, assert_jira_integration_ready}
use gov_flow.Validators.WorkflowSteps.{validate_jira_transition}
use gov_flow.AuditLogs.{safe_register_audit_log, register, insert_entry}
use gov_flow.Runtime.Insert.{check, character_length}
use gov_flow.Runtime.Quiet.{IsQuiet}
use gov_flow.Processing.Handlers.{
  handle_workflow_step_with_context, dispatch_step, handle_jira_transition_step,
  run_jira_transition, build_jira_transition_audit_metadata, simulated_output,
  should_simulate_failure, failure_message,
}
use gov_flow.Processing.Worker.{JobData}
use gov_flow.Processing.Processor.{
  Context, process_step, output_of, proceed, stop, get_external_operation_dedup_reason,
}
use gov_flow.Processing.Processor.Step.{claimed, Rewritten}
use gov_flow.Processing.Processor.Dedup.{IsDue, process_step-calls_only-IsDue}
use gov_flow.Processing.Processor.Outcome.{
  IsDone, IsRetriable, keyed, process_step-completes, process_step-retries,
}
use gov_flow.Processing.Processor.Told.{HasFailed}
use gov_flow.Processing.Processor.Failure.{IsFailed, process_step-fails}
use gov_flow.Processing.History.{job, recovery, run_tasks, run_tasks-Evolves}
use gov_flow.Examples.World.{
  quiet-IsQuiet, quiet, pending_world, world_of, db_with, execution_row, step_row, manual_template,
  comment_template, execution_id, admin_id,
}

abbrev good_job : JobData
good_job = record {
  execution_id = str execution_id;
  processed_by = str admin_id;
  simulate_technical_failure = undefined;
}

run_tasks-Evolves_example :
    Evolves pending_world.db
      (run_tasks quiet
        (job true good_job ∷ recovery null undefined undefined ∷ [])
        pending_world).db
run_tasks-Evolves_example =
    run_tasks-Evolves quiet (λ n d. (Evolves-refl d, Evolves-refl d))
      (job true good_job ∷ recovery null undefined undefined ∷ []) pending_world

-- A world in which the execution is RUNNING and both steps wait.
abbrev running_row : Execution
running_row = execution_row running (some 500)

abbrev running_world : World
running_world = world_of (db_with running_row pending pending)

abbrev context : Context
context = record {
  execution_id = execution_id;
  processed_by = str admin_id;
  execution = with_workflow running_world.db running_row;
}

abbrev manual_row : ExecutionStep
manual_row = step_row "s1" "t1" pending

abbrev manual_step : StepDetails
manual_step = with_template manual_row manual_template

abbrev comment_step : StepDetails
comment_step = with_template (step_row "s2" "t2" pending) comment_template

process_step-calls_only-IsDue_example :
    ((process_step quiet context [] comment_step running_world).1.jira_calls
      ≡ running_world.jira_calls)
    ⊎ IsDue comment_step (await quiet running_world).db
process_step-calls_only-IsDue_example =
    process_step-calls_only-IsDue quiet context [] comment_step running_world

abbrev manual_world : World
manual_world =
    (handle_workflow_step_with_context quiet manual_step context.execution
      (claimed quiet manual_step running_world)).1

abbrev manual_output : Value
manual_output = simulated_output manual_step "Manual step completed by processor simulation"

manual_handled :
    handle_workflow_step_with_context quiet manual_step context.execution
      (claimed quiet manual_step running_world)
    ≡ (ok manual_output, manual_world)
unfolding handle_workflow_step_with_context should_simulate_failure dispatch_step pure
manual_handled = refl

manual_found : find_step manual_step.id running_world.db ≡ some manual_row
unfolding lookup to_lower_case
manual_found = refl

manual_fresh : get_external_operation_dedup_reason manual_step.output ≡ none
unfolding get_external_operation_dedup_reason
manual_fresh = refl

process_step-completes_example :
    ((process_step quiet context [] manual_step running_world).0
      ≡ ok (proceed (output_of manual_step (keyed manual_step.id manual_output))))
    × Rewritten manual_step.id
        (IsDone (keyed manual_step.id manual_output))
        running_world.db
        (process_step quiet context [] manual_step running_world).1.db
process_step-completes_example =
    process_step-completes quiet quiet-IsQuiet context [] manual_step manual_row running_world
      manual_world manual_found refl manual_fresh manual_output manual_handled

abbrev failing_step : StepDetails
failing_step =
    with_template manual_row
      (record manual_template { configuration = obj (object (("shouldFail", bool true) ∷ [])) })

abbrev failing_world : World
failing_world =
    (handle_workflow_step_with_context quiet failing_step context.execution
      (claimed quiet failing_step running_world)).1

abbrev failure : Error
failure = plain_error "Simulated failure for action type MANUAL"

failing_handled :
    handle_workflow_step_with_context quiet failing_step context.execution
      (claimed quiet failing_step running_world)
    ≡ (err failure, failing_world)
unfolding handle_workflow_step_with_context should_simulate_failure throw failure_message
failing_handled = refl

failing_listed : find_execution context.execution_id running_world.db ≡ some running_row
unfolding lookup to_lower_case
failing_listed = refl

process_step-fails_example :
    (y : Execution) × ((process_step quiet context [] failing_step running_world).0
      ≡ ok (stop (some y)))
    × (find_execution context.execution_id
          (process_step quiet context [] failing_step running_world).1.db
        ≡ some y)
    × HasFailed context.processed_by [] failing_step failure.message y
    × ((r : ExecutionStep) × (find_step failing_step.id
            (process_step quiet context [] failing_step running_world).1.db
          ≡ some r)
        × IsFailed failure.message r)
    × ((k : String)
        → (to_lower_case failing_step.id == to_lower_case k) ≡ false
        → find_step k (process_step quiet context [] failing_step running_world).1.db
          ≡ find_step k running_world.db)
process_step-fails_example =
    process_step-fails quiet quiet-IsQuiet context [] failing_step manual_row running_row
      running_world failing_world manual_found refl manual_fresh failing_listed refl failure refl
      failing_handled

-- Jira is down for maintenance.
abbrev busy : Env
busy = record quiet {
  jira = λ n r.
      rejected
        (record { message = "Request failed"; code = none; response = some (503, undefined) });
}

busy-IsQuiet : IsQuiet busy
busy-IsQuiet = record { serial = λ n d. refl; alone = λ n d. refl; healthy = λ n. refl }

abbrev transition_step : StepDetails
transition_step = with_template manual_row (record manual_template {
  action_type = "JIRA_TRANSITION";
  configuration = obj (object (("issueKey", str "GOV-7") ∷ ("transitionId", str "31") ∷ []));
})

abbrev busy_run : Result Value × World
busy_run =
    handle_workflow_step_with_context busy transition_step context.execution
      (claimed busy transition_step running_world)

abbrev busy_failure : Error
busy_failure =
    normalize_jira_error
      (record { message = "Request failed"; code = none; response = some (503, undefined) })
      "transition"

busy_handled : busy_run ≡ (err busy_failure, busy_run.1)
unfolding handle_workflow_step_with_context should_simulate_failure dispatch_step
    handle_jira_transition_step run_jira_transition transition_issue assert_jira_integration_ready
    ◌>>=◌ try throw pure call_jira require validate_jira_transition safe_register_audit_log register
    query normalize_jira_error require_valid validate_create_audit_log
    build_jira_transition_audit_metadata insert_entry check character_length
busy_handled = refl

busy_retryable : busy_failure.is_retryable ≡ true
unfolding normalize_jira_error business_message normalize_unmapped is_retryable_4xx
busy_retryable = refl

process_step-retries_example :
    ((process_step busy context [] transition_step running_world).0 ≡ err busy_failure)
    × Rewritten transition_step.id
        (IsRetriable busy_failure.message)
        running_world.db
        (process_step busy context [] transition_step running_world).1.db
process_step-retries_example =
    process_step-retries busy busy-IsQuiet context [] transition_step manual_row running_world
      busy_run.1 manual_found refl manual_fresh busy_failure busy_retryable busy_handled
