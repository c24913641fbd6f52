-- ===== src/Processing/Processor/Failure.antt =====
-- The business failure of a step that was claimed, with nobody else at the database.
use gov_flow.Prelude.{
  ℕ, suc, String, Bool, true, false, ◌≡◌, refl, ◌∙◌, ap, List, Option, none, some, arith, ◌==◌,
  eq_refl, if◌then◌else◌,
}
use gov_flow.Js.Text.{to_lower_case}
use gov_flow.Js.Value.{Value, null}
use gov_flow.Errors.{Error}
use gov_flow.Database.{Execution, ExecutionStep, pending, running, failed}
use gov_flow.Database.Table.{lookup, update, lookup-update, updated-eq-some}
use gov_flow.Executions.Repository.{
  find_execution, execution_key, is_finalizable, set_finalized, finalize_running_execution,
}
use gov_flow.Executions.StepRepository.{StepDetails, StatusChange, find_step, step_key, set_status}
use gov_flow.AuditLogs.Safe.{safe_register-ok}
use gov_flow.AuditLogs.{safe_register_audit_log}
use gov_flow.Runtime.{Env, World, Result, ok, err, clock, pure}
use gov_flow.Runtime.Quiet.{IsQuiet, bind-ok, bind-err, try-err, query_quiet}
use gov_flow.Processing.Handlers.{handle_workflow_step_with_context}
use gov_flow.Processing.Processor.{
  Context, StepOutput, Verdict, stop, get_external_operation_dedup_reason, run_handler,
  on_handler_error, revert_step, fail_step, finalize_failed, failed_result, process_step,
  execution_audit, failure_metadata,
}
use gov_flow.Processing.Processor.Told.{HasFailed, failed_result-TellsFailure}
use gov_flow.Processing.Processor.Step.{
  claimed, claimed_row, claimed_found, claim_then_write, status_quiet, process_step-claimed,
  handler_rows, step_written, SameRows, audit_rows, Rewritten,
}

abbrev fail_change : ℕ → String → StatusChange
fail_change now message = record {
  status = failed;
  completed_at = some now;
  error_message = some message;
  output = null;
}

-- The row of a step that failed for good.
pub record IsFailed (message : String) (row : ExecutionStep) : Type 0 where
  pub status : row.status ≡ failed
  pub error : row.error_message ≡ some message

abbrev pub finalized : World → String → Value → ℕ → World
finalized w id result now = record w {
  db = record w.db {
    executions =
        update execution_key (to_lower_case id) is_finalizable (set_finalized failed result now)
          w.db.executions;
  };
  ticks = suc w.ticks;
}

module _ (env : Env) (q : IsQuiet env) (c : Context) (outputs : List StepOutput)
    (step : StepDetails) where
  abbrev pub result_of : String → Value
  result_of message = failed_result c.processed_by outputs step message

  abbrev pub audited : String → World → World
  audited message w =
      (safe_register_audit_log env
        (execution_audit c "WORKFLOW_EXECUTION_PROCESS_FAILED" (failure_metadata step message)) w).1

  pub finalize_quiet :
      (message : String) (x : Execution) (w : World)
      → find_execution c.execution_id w.db ≡ some x
      → x.status ≡ running
      → finalize_failed env c outputs step message w ≡ (
        ok (some (set_finalized failed (result_of message) (env.now w.ticks) x)),
        audited message (finalized w c.execution_id (result_of message) (env.now w.ticks)),
      )
  unfolding finalize_failed pure finalize_running_execution
  finalize_quiet message x w found active =
      bind-ok _ _ _ _ _ (
        query_quiet env q _ w
        ∙ ap
            (λ (o : Option Execution).
              (ok o, finalized w c.execution_id (result_of message) (env.now w.ticks)))
            (updated-eq-some execution_key _ is_finalizable _ w.db.executions x found
              (ground arith)))
      ∙ bind-ok _ _ _ _ _ (safe_register-ok env _ _)

  pub finalized_found :
      (result : Value) (now : ℕ) (x : Execution) (w : World)
      → find_execution c.execution_id w.db ≡ some x
      → x.status ≡ running
      → find_execution c.execution_id (finalized w c.execution_id result now).db
        ≡ some (set_finalized failed result now x)
  finalized_found result now x w found active =
      lookup-update execution_key is_finalizable (set_finalized failed result now) (λ y. refl) _ _
        w.db.executions
      ∙ rw (eq_refl (to_lower_case c.execution_id), found) (ground arith)

  fail_quiet :
      (error : Error) (row : ExecutionStep) (x : Execution) (w : World)
      → find_step step.id w.db ≡ some row
      → find_execution c.execution_id w.db ≡ some x
      → x.status ≡ running
      → let w3 =
          step_written w step.id
            (λ s. true)
            (set_status (fail_change (env.now w.ticks) error.message) (env.now w.ticks)) in
        fail_step env c outputs step error w ≡ (
          ok (stop (some (set_finalized failed (result_of error.message) (env.now w3.ticks) x))),
          audited error.message
              (finalized w3 c.execution_id (result_of error.message) (env.now w3.ticks)),
        )
  unfolding fail_step clock pure
  fail_quiet error row x w found listed active =
      bind-ok _ _ w w (env.now w.ticks) refl
      ∙ bind-ok _ _ _ _ _
          (status_quiet env q step.id (fail_change (env.now w.ticks) error.message) row w found)
      ∙ bind-ok _ _ _ _ _ (finalize_quiet error.message x _ listed active)

  module _ (row : ExecutionStep) (x : Execution) (w w2 : World)
      (found : find_step step.id w.db ≡ some row) (unclaimed : row.status ≡ pending)
      (fresh : get_external_operation_dedup_reason step.output ≡ none)
      (listed : find_execution c.execution_id w.db ≡ some x) (active : x.status ≡ running) where
    -- With nobody else at the database and no failing query: if the row of the step is PENDING, that
    -- of the execution RUNNING, the step's output tells of no earlier call of Jira, and the handler
    -- throws an error that is not marked retryable, then the loop returns the execution. Its row is
    -- FAILED, and its result names the step, the error's message and the outputs of the steps before
    -- it; the row of the step is FAILED with that message, and the rows of the other steps are as
    -- they were.
    pub process_step-fails :
        (error : Error)
        → error.is_retryable ≡ false
        → handle_workflow_step_with_context env step c.execution (claimed env step w)
          ≡ (err error, w2)
        → (y : Execution) × ((process_step env c outputs step w).0 ≡ ok (stop (some y)))
          × (find_execution c.execution_id (process_step env c outputs step w).1.db ≡ some y)
          × HasFailed c.processed_by outputs step error.message y
          × ((r : ExecutionStep) × (find_step step.id (process_step env c outputs step w).1.db
                ≡ some r)
              × IsFailed error.message r)
          × ((k : String)
              → (to_lower_case step.id == to_lower_case k) ≡ false
              → find_step k (process_step env c outputs step w).1.db ≡ find_step k w.db)
    unfolding run_handler on_handler_error failed_result
    process_step-fails error terminal handled = (
      y,
      ap (λ (o : Result Verdict × World). o.0) run,
      ap (λ (o : Result Verdict × World). find_execution c.execution_id o.1.db) run
          ∙ ap (lookup execution_key (to_lower_case c.execution_id)) (kept w4).1
          ∙ finalized_found (result_of error.message) (env.now w3.ticks) x w3 listed3 active,
      record {
        status = refl;
        result_kept = failed_result-TellsFailure c.processed_by outputs step error.message;
      },
      (
        written.0.0,
        ap (λ (o : Result Verdict × World). find_step step.id o.1.db) run
            ∙ ap (lookup step_key (to_lower_case step.id)) (kept w4).0
            ∙ written.0.1,
        written.0.2,
      ),
      (λ k other.
          ap (λ (o : Result Verdict × World). find_step k o.1.db) run
          ∙ ap (lookup step_key (to_lower_case k)) (kept w4).0
          ∙ written.1 k other),
    )
      where
        rows : SameRows (claimed env step w).db w2.db
        rows = handler_rows env q step row w found unclaimed c outputs fresh (err error) w2 handled

        change : StatusChange
        change = fail_change (env.now w2.ticks) error.message

        w3 : World
        w3 = step_written w2 step.id (λ s. true) (set_status change (env.now w2.ticks))

        w4 : World
        w4 = finalized w3 c.execution_id (result_of error.message) (env.now w3.ticks)

        y : Execution
        y = set_finalized failed (result_of error.message) (env.now w3.ticks) x

        listed3 : find_execution c.execution_id w3.db ≡ some x
        listed3 = ap (lookup execution_key (to_lower_case c.execution_id)) rows.1 ∙ listed

        kept : (v : World) → SameRows v.db (audited error.message v).db
        kept v = audit_rows env q _ v

        written : Rewritten step.id (IsFailed error.message) w.db w3.db
        written =
            claim_then_write env q step row w found unclaimed w2 change (env.now w2.ticks) _ rows
              (record { status = refl; error = refl })

        run : process_step env c outputs step w ≡ (ok (stop (some y)), audited error.message w4)
        run =
            process_step-claimed env q step row w found unclaimed c outputs fresh
            ∙ try-err _ _ _ _ _ (bind-err _ _ _ _ _ handled)
            ∙ ap
                (λ (b : Bool).
                  (if b then revert_step env c step error else fail_step env c outputs step error)
                    w2)
                terminal
            ∙ fail_quiet error (claimed_row env w row) x w2
                (claimed_found env q step row w found unclaimed w2 rows) listed3 active
