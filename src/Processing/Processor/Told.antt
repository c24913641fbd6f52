-- ===== src/Processing/Processor/Told.antt =====
-- What the result of an execution that failed tells (workflowProcessor.service.js).
use gov_flow.Prelude.{map, length, [], ◌∷◌, String, ◌≡◌, refl, List}
use gov_flow.Js.Value.{Value, str, obj, arr, get, items, object, nat}
use gov_flow.Database.{Execution, failed}
use gov_flow.Executions.StepRepository.{StepDetails}
use gov_flow.Processing.Processor.{StepOutput, failed_step_value, step_output_value, failed_result}

-- An earlier step, as the result of an execution tells of it
abbrev pub told_step : StepOutput → Value
told_step o = obj (
    object (
      ("executionStepId", str o.execution_step_id)
      ∷ ("stepId", str o.step_id)
      ∷ ("stepOrder", nat o.step_order)
      ∷ ("actionType", str o.action_type)
      ∷ ("output", o.output)
      ∷ []))

-- What a result tells of a failure: who processed the execution, how many steps went before, at
-- which step it failed and with which error, and what the steps before gave.
pub record TellsFailure (processed_by : Value) (outputs : List StepOutput) (step : StepDetails)
    (message : String) (result : Value) : Type 0 where
  pub by : get "processedBy" result ≡ processed_by
  pub processed : get "stepsProcessed" result ≡ nat (length outputs)
  pub failed_row : get "executionStepId" (get "failedStep" result) ≡ str step.id
  pub failed_step : get "stepId" (get "failedStep" result) ≡ str step.step_id
  pub failed_order : get "stepOrder" (get "failedStep" result) ≡ nat step.step_order
  pub failed_action : get "actionType" (get "failedStep" result) ≡ str step.action_type
  pub error : get "error" (get "failedStep" result) ≡ str message
  pub earlier : get "steps" result ≡ arr (items (map told_step outputs))

-- The row of an execution that failed, with its result.
pub record HasFailed (processed_by : Value) (outputs : List StepOutput) (step : StepDetails)
    (message : String) (x : Execution) : Type 0 where
  pub status : x.status ≡ failed
  pub result_kept : TellsFailure processed_by outputs step message x.result

pub failed_result-TellsFailure :
    (processed_by : Value) (outputs : List StepOutput) (step : StepDetails) (message : String)
    → TellsFailure processed_by outputs step message
        (failed_result processed_by outputs step message)
unfolding failed_result failed_step_value step_output_value
failed_result-TellsFailure processed_by outputs step message = record {
  by = refl;
  processed = refl;
  failed_row = refl;
  failed_step = refl;
  failed_order = refl;
  failed_action = refl;
  error = refl;
  earlier = refl;
}
