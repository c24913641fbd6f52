-- ===== src/Processing/Processor/Dedup.antt =====
-- When the processor calls Jira: only for a step that it has claimed and whose output does not tell
-- of a call made before. Nothing is asked of the other actors, and queries may fail.
use gov_flow.Prelude.{
  String, true, ◌≡◌, refl, ◌∙◌, ap, List, ◌⊎◌, inl, inr, Option, none, some, Option-cases,
  Bool-cases, arith,
}
use gov_flow.Js.Text.{to_lower_case}
use gov_flow.Js.Value.{Value}
use gov_flow.Errors.{Error}
use gov_flow.Database.{Db, ExecutionStep, Execution, StepStatus, pending, completed, failed}
use gov_flow.Database.Table.{updated-eq-some, updated-eq-none, updated}
use gov_flow.Executions.StepRepository.{
  StepDetails, find_step, step_key, claim_pending_step, is_step_claimable, set_step_claimed,
}
use gov_flow.Validators.AuditLogs.{AuditPayload}
use gov_flow.AuditLogs.{register, safe_register_audit_log}
use gov_flow.Runtime.{Env, World, Result, ok, err, query, await, ◌>>=◌, continue}
use gov_flow.Runtime.Silent.{Silent, Silent-bind, silence, Silent-query}
use gov_flow.Processing.Processor.{
  Context, StepOutput, finalize_concurrently_claimed_execution, finalize_failed, report_failed,
  unclaimable, skip_completed, on_unclaimed_at, on_unclaimed, complete_step, reuse_output,
  after_claim, process_step, get_external_operation_dedup_reason,
}

module _ (env : Env) (c : Context) where
  audit-Silent : (p : AuditPayload) → Silent (safe_register_audit_log env p)
  unfolding safe_register_audit_log register
  audit-Silent p = search silence depth 12

  ruleset silent_steps = (silence, audit-Silent)

  concurrently-Silent : Silent (finalize_concurrently_claimed_execution env c)
  unfolding finalize_concurrently_claimed_execution
  concurrently-Silent = search silent_steps depth 12

  report_failed-Silent :
      (step : StepDetails) (error : String) (o : Option Execution)
      → Silent (report_failed env c step error o)
  report_failed-Silent step error none = concurrently-Silent
  report_failed-Silent step error (some x) = search silent_steps depth 12

  finalize_failed-Silent :
      (outputs : List StepOutput) (step : StepDetails) (error : String)
      → Silent (finalize_failed env c outputs step error)
  unfolding finalize_failed
  finalize_failed-Silent outputs step error =
      Silent-bind _ _ (Silent-query env _) (report_failed-Silent step error)

  unclaimable-Silent : (step : StepDetails) → Silent (unclaimable env c step)
  unfolding unclaimable
  unclaimable-Silent step = search silent_steps depth 12

  unclaimed-Silent :
      (s : StepStatus) (outputs : List StepOutput) (step : StepDetails)
      → Silent (on_unclaimed_at env c s outputs step)
  unfolding skip_completed
  unclaimed-Silent completed outputs step = search silent_steps depth 12
  unclaimed-Silent failed outputs step = search (silence, finalize_failed-Silent) depth 12
  unclaimed-Silent _ outputs step = unclaimable-Silent step

  complete_step-Silent : (step : StepDetails) (v : Value) → Silent (complete_step env c step v)
  unfolding complete_step
  complete_step-Silent step v = search silent_steps depth 12

  reuse_output-Silent :
      (step : StepDetails) (reason : String) → Silent (reuse_output env c step reason)
  unfolding reuse_output
  reuse_output-Silent step reason =
      Silent-bind _ _ (audit-Silent _) (λ _. complete_step-Silent step step.output)

-- How a claim can end.
data Claim (id : String) (d : Db) (r : Result (Option ExecutionStep)) : Type 0 where
  broke : (e : Error) → r ≡ err e → Claim id d r
  lost : r ≡ ok none → Claim id d r
  won :
      (row s : ExecutionStep)
      → find_step id d ≡ some row
      → row.status ≡ pending
      → r ≡ ok (some s)
      → Claim id d r

pending_of : (row : ExecutionStep) → is_step_claimable row ≡ true → row.status ≡ pending
pending_of row h = ground arith

module _ (env : Env) (id : String) (w : World) where
  abbrev set : ExecutionStep → ExecutionStep
  set = set_step_claimed (env.now w.ticks)

  updated-Claim :
      (o : Option ExecutionStep)
      → find_step id (await env w).db ≡ o
      → Claim id (await env w).db (
          ok (
            updated step_key
              (to_lower_case id)
              is_step_claimable
              set
              (await env w).db.execution_steps))
  unfolding updated
  updated-Claim none e = lost (rw (e, updated) refl)
  updated-Claim (some row) e = elim (Bool-cases (is_step_claimable row)) [
    | inl p ↦ won row (set row) e (pending_of row p) (
        ap (λ (x : Option ExecutionStep). ok x)
          (updated-eq-some step_key _ is_step_claimable set (await env w).db.execution_steps row e
            p))
    | inr p ↦ lost (
        ap (λ (x : Option ExecutionStep). ok x)
          (updated-eq-none step_key _ is_step_claimable set (await env w).db.execution_steps row e
            p))
  ]

  query-Claim : Claim id (await env w).db (query env (claim_pending_step id) w).0
  unfolding query claim_pending_step
  query-Claim = elim (Option-cases (env.outage w.ticks)) [
    | inl e ↦ rw (e, query) (updated-Claim (find_step id (await env w).db) refl)
    | inr (x, e) ↦ rw (e, query) (broke x refl)
  ]

-- What must hold at the moment of the claim for the handler of a step to run.
pub record IsDue (step : StepDetails) (d : Db) : Type 0 where
  pub row : ExecutionStep
  pub found : find_step step.id d ≡ some row
  pub is_pending : row.status ≡ pending
  pub no_trace : get_external_operation_dedup_reason step.output ≡ none

module _ (env : Env) (c : Context) (outputs : List StepOutput) (step : StepDetails)
    (w : World) where
  after_claim-IsDue :
      (d : Db) (r : Result (Option ExecutionStep)) (v : World)
      → Claim step.id d r
      → ((continue r (λ o. after_claim env c o outputs step) v).1.jira_calls ≡ v.jira_calls)
        ⊎ IsDue step d
  unfolding on_unclaimed
  after_claim-IsDue d r v (broke e p) = inl (rw p refl)
  after_claim-IsDue d r v (lost p) =
      inl (rw p ((unclaimed-Silent env c step.status outputs step).at v))
  after_claim-IsDue d r v (won row s found is_pending p) =
      elim (Option-cases (get_external_operation_dedup_reason step.output)) [
        | inl e ↦ inr (record { row = row; found = found; is_pending = is_pending; no_trace = e })
        | inr (reason, e) ↦ inl (rw (p, e) ((reuse_output-Silent env c step reason).at v))
      ]

  -- In any environment, a step makes no call of Jira unless its row was PENDING in the database that
  -- its claim met, and its output, as the loop had read it, holds no identifier of a comment or
  -- transition of Jira. So a step that is COMPLETED, FAILED, SKIPPED, missing or RUNNING elsewhere
  -- is never sent to Jira again.
  pub process_step-calls_only-IsDue :
      ((process_step env c outputs step w).1.jira_calls ≡ w.jira_calls)
      ⊎ IsDue step (await env w).db
  unfolding process_step ◌>>=◌
  process_step-calls_only-IsDue =
      elim (after_claim-IsDue (await env w).db _ _ (query-Claim env step.id w)) [
        | inl same ↦ inl (same ∙ (Silent-query env (claim_pending_step step.id)).at w)
        | inr due ↦ inr due
      ]
