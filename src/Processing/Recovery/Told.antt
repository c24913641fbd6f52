-- ===== src/Processing/Recovery/Told.antt =====
-- What the result of a recovered execution tells (workflowExecutionRecovery.service.js).
use gov_flow.Prelude.{ℕ, map, true, [], ◌∷◌}
use gov_flow.Js.Value.{Value, bool, str, arr, obj, items, object, nat, spread, append_fields}
use gov_flow.Database.{Execution, ExecutionStep, status_text}
use gov_flow.Runtime.{Env}
use gov_flow.Processing.Recovery.{RecoveredStep, Sorted}

-- The `result` that a recovery gives an execution: what it had, and then who recovered it, when and
-- why, and what has become of the steps that were RUNNING.
abbrev pub told_failed : ExecutionStep → Value
told_failed s = obj (
    object (
      ("executionStepId", str s.id)
      ∷ ("stepId", str s.step_id)
      ∷ ("error", str "Execution timed out while running")
      ∷ []))

abbrev pub told_recovered : RecoveredStep → Value
told_recovered r = obj (
    object (
      ("executionStepId", str r.execution_step_id)
      ∷ ("stepId", str r.step_id)
      ∷ ("recoveredViaRemoteLookup", bool true)
      ∷ []))

abbrev pub told : Env → Value → ℕ → Execution → ℕ → Sorted → Value
told env by timeout x time steps = obj (
    append_fields (spread x.result) (
      object (
        ("recoveryReason", str "Execution timed out while running")
        ∷ ("recoveredBy", by)
        ∷ ("recoveredAt", str (env.to_iso_string time))
        ∷ ("timeoutMinutes", nat timeout)
        ∷ ("previousStatus", str (status_text x.status))
        ∷ ("failedRunningSteps", arr (items (map told_failed steps.failed_steps)))
        ∷ ("recoveredRunningSteps", arr (items (map told_recovered steps.recovered_steps)))
        ∷ [])))
