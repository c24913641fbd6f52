-- ===== src/Processing/Processor/Reentry.antt =====
-- A step that an earlier attempt of the job has left COMPLETED, RUNNING or FAILED, with nobody else
-- at the database.
use gov_flow.Prelude.{
  suc, String, Bool, true, false, ◌≡◌, refl, sym, ◌∙◌, ap, subst, List, [], ◌∷◌, Option, none, some,
  arith,
}
use gov_flow.Js.Text.{to_lower_case}
use gov_flow.Js.Value.{Value, coalesce, obj, object, bool, str}
use gov_flow.Database.{ExecutionStep, StepStatus, running, completed}
use gov_flow.Database.Table.{lookup, update, updated-eq-none}
use gov_flow.Executions.StepRepository.{
  StepDetails, find_step, step_key, claim_pending_step, is_step_claimable, set_step_claimed,
}
use gov_flow.AuditLogs.Safe.{safe_register-ok}
use gov_flow.Runtime.{Env, World, Result, ok, err, query, pure, throw}
use gov_flow.Runtime.Quiet.{IsQuiet, bind-ok, query_quiet}
use gov_flow.Processing.Processor.{
  Context, StepOutput, Verdict, proceed, output_of, process_step, on_unclaimed, on_unclaimed_at,
  skip_completed, unclaimable, claim_error,
}
use gov_flow.Processing.Processor.Step.{SameRows, audit_rows}

-- The output of a step that an earlier attempt completed
abbrev pub stored_output : StepDetails → Value
stored_output step =
    coalesce step.output
      (obj (object (("skipped", bool true) ∷ ("reason", str "already_completed") ∷ [])))

module _ {Row : Type 0} (key : Row → String) (k : String) (guard : Row → Bool)
    (set : Row → Row) where
  update_idle :
      (row : Row) (rs : List Row)
      → lookup key k rs ≡ some row
      → guard row ≡ false
      → update key k guard set rs ≡ rs
  unfolding lookup update
  update_idle row [] e g = refl
  update_idle row (r ∷ rs) e g = ground (arith, update_idle row rs)

module _ (env : Env) (q : IsQuiet env) (c : Context) (outputs : List StepOutput)
    (step : StepDetails) (row : ExecutionStep) (w : World)
    (found : find_step step.id w.db ≡ some row) (taken : is_step_claimable row ≡ false) where
  abbrev unclaimed_world : World
  unclaimed_world = record w { ticks = suc w.ticks }

  claim_lost : query env (claim_pending_step step.id) w ≡ (ok none, unclaimed_world)
  unfolding claim_pending_step
  claim_lost =
      query_quiet env q _ w
      ∙ ap
          (λ (o : Option ExecutionStep).
            (ok o, rewritten (update step_key id is_step_claimable set rows)))
          (updated-eq-none step_key id is_step_claimable set rows row found taken)
      ∙ ap (λ (l : List ExecutionStep). (ok none, rewritten l))
          (update_idle step_key id is_step_claimable set row rows found taken)
    where
      id : String
      id = to_lower_case step.id

      rows : List ExecutionStep
      rows = w.db.execution_steps

      set : ExecutionStep → ExecutionStep
      set = set_step_claimed (env.now w.ticks)

      rewritten : List ExecutionStep → World
      rewritten l = record w { db = record w.db { execution_steps = l }; ticks = suc w.ticks }

  unclaimed_run :
      (s : StepStatus)
      → step.status ≡ s
      → process_step env c outputs step w ≡ on_unclaimed_at env c s outputs step unclaimed_world
  unfolding process_step on_unclaimed
  unclaimed_run s e =
      bind-ok _ _ w unclaimed_world none claim_lost
      ∙ ap (λ (t : StepStatus). on_unclaimed_at env c t outputs step unclaimed_world) e

  -- With nobody else at the database and no failing query: if the row of the step is not PENDING and
  -- the loop has read the step as COMPLETED, the loop goes on with the output that the step has
  -- stored, or a note that it was skipped if it has none. The rows of steps and executions are as
  -- they were.
  pub process_step-skips :
      step.status ≡ completed
      → ((process_step env c outputs step w).0 ≡ ok (proceed (output_of step (stored_output step))))
        × SameRows w.db (process_step env c outputs step w).1.db
  unfolding skip_completed pure
  process_step-skips e =
      subst
        (λ (o : Result Verdict × World).
          (o.0 ≡ ok (proceed (output_of step (stored_output step)))) × SameRows w.db o.1.db)
        (sym
          (unclaimed_run completed e ∙ bind-ok _ _ _ _ _ (safe_register-ok env _ unclaimed_world)))
        (refl, audit_rows env q _ unclaimed_world)

  -- With nobody else at the database and no failing query: if the row of the step is not PENDING and
  -- the loop has read the step as RUNNING, an earlier attempt may have reached Jira. The step throws
  -- a retryable error, and the rows of steps and executions are as they were.
  pub process_step-waits :
      step.status ≡ running
      → ((process_step env c outputs step w).0 ≡ err (claim_error step))
        × ((claim_error step).is_retryable ≡ true)
        × SameRows w.db (process_step env c outputs step w).1.db
  unfolding unclaimable throw
  process_step-waits e =
      subst
        (λ (o : Result Verdict × World).
          (o.0 ≡ err (claim_error step))
          × ((claim_error step).is_retryable ≡ true)
          × SameRows w.db o.1.db)
        (sym (unclaimed_run running e ∙ bind-ok _ _ _ _ _ (safe_register-ok env _ unclaimed_world)))
        (refl, refl, audit_rows env q _ unclaimed_world)
