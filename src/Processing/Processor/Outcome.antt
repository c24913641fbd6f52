-- ===== src/Processing/Processor/Outcome.antt =====
-- The three outcomes of a step that was claimed, with nobody else at the database.
use gov_flow.Prelude.{
  [], ◌∷◌, ℕ, String, Bool, true, ◌≡◌, refl, sym, ◌∙◌, ap, subst, List, none, some, if◌then◌else◌,
}
use Prim.Native.String
use gov_flow.Js.Value.{Value, null, obj, str, object, spread, append_fields}
use gov_flow.Errors.{Error}
use gov_flow.Database.{ExecutionStep, pending, completed}
use gov_flow.Executions.StepRepository.{StepDetails, StatusChange, find_step, set_status}
use gov_flow.AuditLogs.Safe.{safe_register-ok}
use gov_flow.AuditLogs.{safe_register_audit_log}
use gov_flow.Runtime.{Env, World, Result, ok, err, ◌>>=◌, clock, pure, throw}
use gov_flow.Runtime.Quiet.{IsQuiet, bind-ok, bind-err, try-ok, try-err}
use gov_flow.Processing.Handlers.{handle_workflow_step_with_context}
use gov_flow.Processing.Processor.{
  Context, StepOutput, Verdict, proceed, output_of, enrich_step_output, idempotency_key,
  get_external_operation_dedup_reason, complete_step, run_handler, on_handler_error, revert_step,
  process_step, fail_step, execution_audit, failure_metadata,
}
use gov_flow.Processing.Processor.Step.{
  Rewritten, claimed, claimed_row, claimed_found, claim_then_write, status_quiet,
  process_step-claimed, handler_rows, Rewritten-SameRows, audit_rows, step_written, SameRows,
}

-- The row of a step that was done, with what its handler gave back.
pub record IsDone (output : Value) (row : ExecutionStep) : Type 0 where
  pub status : row.status ≡ completed
  pub output_kept : row.output ≡ output
  pub no_error : row.error_message ≡ none

-- The row of a step that waits for the next attempt of the job.
pub record IsRetriable (message : String) (row : ExecutionStep) : Type 0 where
  pub status : row.status ≡ pending
  pub error : row.error_message ≡ some message

abbrev done_change : ℕ → Value → StatusChange
done_change now output = record {
  status = completed;
  completed_at = some now;
  error_message = none;
  output = output;
}

abbrev retry_change : String → StatusChange
retry_change message = record {
  status = pending;
  completed_at = none;
  error_message = some message;
  output = null;
}

-- What a handler gave back, under the idempotency key of its step
abbrev pub keyed : String → Value → Value
keyed id output = obj (
    append_fields (spread output)
      (object (("idempotencyKey", str (String.◌++◌ "workflowExecutionStep:" id)) ∷ [])))

module _ (env : Env) (q : IsQuiet env) (c : Context) (step : StepDetails) where
  complete_quiet :
      (output : Value) (row : ExecutionStep) (w : World)
      → find_step step.id w.db ≡ some row
      → complete_step env c step output w ≡ (
        ok (proceed (output_of step output)),
        step_written w step.id
            (λ s. true)
            (set_status (done_change (env.now w.ticks) output) (env.now w.ticks)),
      )
  unfolding complete_step ◌>>=◌ clock pure
  complete_quiet output row w found =
      rw (status_quiet env q step.id (done_change (env.now w.ticks) output) row w found) refl

  revert_quiet :
      (error : Error) (row : ExecutionStep) (w : World)
      → find_step step.id w.db ≡ some row
      → revert_step env c step error w ≡ (
        err error,
        (safe_register_audit_log env
            (execution_audit c "WORKFLOW_EXECUTION_PROCESS_TECHNICAL_FAILURE"
              (failure_metadata step error.message))
            (step_written w step.id
              (λ s. true)
              (set_status (retry_change error.message) (env.now w.ticks)))).1,
      )
  unfolding revert_step throw
  revert_quiet error row w found =
      bind-ok _ _ _ _ _ (status_quiet env q step.id (retry_change error.message) row w found)
      ∙ bind-ok _ _ _ _ _ (safe_register-ok env _ _)

module _ (env : Env) (q : IsQuiet env) (c : Context) (outputs : List StepOutput)
    (step : StepDetails) (row : ExecutionStep) (w w2 : World)
    (found : find_step step.id w.db ≡ some row) (unclaimed : row.status ≡ pending)
    (fresh : get_external_operation_dedup_reason step.output ≡ none) where
  -- With nobody else at the database and no failing query: if the row of the step is PENDING, its
  -- output tells of no earlier call of Jira and the handler returns an output, then the loop goes on
  -- with that output, its field idempotencyKey set to the step's key; the row is COMPLETED, holds
  -- that same output and no error, and all other rows of steps and executions are as they were.
  pub process_step-completes :
      (output : Value)
      → handle_workflow_step_with_context env step c.execution (claimed env step w)
        ≡ (ok output, w2)
      → ((process_step env c outputs step w).0
          ≡ ok (proceed (output_of step (keyed step.id output))))
        × Rewritten step.id
            (IsDone (keyed step.id output))
            w.db
            (process_step env c outputs step w).1.db
  unfolding run_handler enrich_step_output idempotency_key
  process_step-completes output handled =
      subst
        (λ (o : Result Verdict × World).
          (o.0 ≡ ok (proceed (output_of step (keyed step.id output))))
          × Rewritten step.id (IsDone (keyed step.id output)) w.db o.1.db)
        (sym run)
        (
          refl,
          claim_then_write env q step row w found unclaimed w2 change (env.now w2.ticks) _ rows
              (record { status = refl; output_kept = refl; no_error = refl }),
        )
    where
      change : StatusChange
      change = done_change (env.now w2.ticks) (enrich_step_output step output)

      rows : SameRows (claimed env step w).db w2.db
      rows = handler_rows env q step row w found unclaimed c outputs fresh (ok output) w2 handled

      run : process_step env c outputs step w ≡ (
        ok (proceed (output_of step (enrich_step_output step output))),
        step_written w2 step.id (λ s. true) (set_status change (env.now w2.ticks)),
      )
      run =
          process_step-claimed env q step row w found unclaimed c outputs fresh
          ∙ try-ok _ _ _ _ _ (
              bind-ok _ _ _ _ _ handled
              ∙ complete_quiet env q c step (enrich_step_output step output) (claimed_row env w row)
                  w2 (claimed_found env q step row w found unclaimed w2 rows))

  -- With nobody else at the database and no failing query: if the row of the step is PENDING, its
  -- output tells of no earlier call of Jira and the handler throws an error that is marked
  -- retryable, the step throws that error on, so that the queue tries the job again; the row is back
  -- to PENDING with the error's message, and all other rows of steps and executions, that of the
  -- execution included, are as they were.
  pub process_step-retries :
      (error : Error)
      → error.is_retryable ≡ true
      → handle_workflow_step_with_context env step c.execution (claimed env step w)
        ≡ (err error, w2)
      → ((process_step env c outputs step w).0 ≡ err error)
        × Rewritten step.id
            (IsRetriable error.message)
            w.db
            (process_step env c outputs step w).1.db
  unfolding run_handler on_handler_error
  process_step-retries error retryable handled =
      subst
        (λ (o : Result Verdict × World).
          (o.0 ≡ err error) × Rewritten step.id (IsRetriable error.message) w.db o.1.db)
        (sym run)
        (
          refl,
          Rewritten-SameRows step.id _ w.db w3.db (audit w3).db
              (claim_then_write env q step row w found unclaimed w2 (retry_change error.message)
                (env.now w2.ticks) _ rows (record { status = refl; error = refl }))
              (audit_rows env q _ w3),
        )
    where
      rows : SameRows (claimed env step w).db w2.db
      rows = handler_rows env q step row w found unclaimed c outputs fresh (err error) w2 handled

      w3 : World
      w3 =
          step_written w2 step.id (λ s. true)
            (set_status (retry_change error.message) (env.now w2.ticks))

      audit : World → World
      audit v =
          (safe_register_audit_log env
            (execution_audit c "WORKFLOW_EXECUTION_PROCESS_TECHNICAL_FAILURE"
              (failure_metadata step error.message))
            v).1

      run : process_step env c outputs step w ≡ (err error, audit w3)
      run =
          process_step-claimed env q step row w found unclaimed c outputs fresh
          ∙ try-err _ _ _ _ _ (bind-err _ _ _ _ _ handled)
          ∙ ap
              (λ (b : Bool).
                (if b then revert_step env c step error else fail_step env c outputs step error) w2)
              retryable
          ∙ revert_quiet env q c step error (claimed_row env w row) w2
              (claimed_found env q step row w found unclaimed w2 rows)
