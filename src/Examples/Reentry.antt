-- ===== src/Examples/Reentry.antt =====
-- The theorems on a second attempt of a job, at a step that the first one left behind.
use gov_flow.Prelude.{◌≡◌, refl, true, [], some}
use gov_flow.Js.Text.{to_lower_case}
use gov_flow.Database.{Execution, ExecutionStep, completed, failed, running}
use gov_flow.Database.Table.{lookup}
use gov_flow.Executions.Repository.{with_workflow}
use gov_flow.Executions.StepRepository.{StepDetails, with_template, find_step}
use gov_flow.Js.Value.{str}
use gov_flow.Runtime.{World, ok, err}
use gov_flow.Processing.Processor.{Context, process_step, proceed, output_of, claim_error}
use gov_flow.Processing.Processor.Step.{SameRows}
use gov_flow.Processing.Processor.Reentry.{stored_output, process_step-skips, process_step-waits}
use gov_flow.Examples.World.{
  quiet-IsQuiet, quiet, world_of, db_with, execution_row, step_row, comment_template,
  manual_template, execution_id, admin_id,
}

abbrev retried_row : Execution
retried_row = execution_row running (some 500)

-- The first step is done, and the second was under way when the worker died.
abbrev retried_world : World
retried_world = world_of (db_with retried_row completed running)

abbrev context : Context
context = record {
  execution_id = execution_id;
  processed_by = str admin_id;
  execution = with_workflow retried_world.db retried_row;
}

abbrev done_row : ExecutionStep
done_row = step_row "s1" "t1" completed

abbrev open_row : ExecutionStep
open_row = step_row "s2" "t2" running

abbrev done_step : StepDetails
done_step = with_template done_row manual_template

abbrev open_step : StepDetails
open_step = with_template open_row comment_template

done_found : find_step done_step.id retried_world.db ≡ some done_row
unfolding lookup to_lower_case
done_found = refl

open_found : find_step open_step.id retried_world.db ≡ some open_row
unfolding lookup to_lower_case
open_found = refl

process_step-skips_example :
    ((process_step quiet context [] done_step retried_world).0
      ≡ ok (proceed (output_of done_step (stored_output done_step))))
    × SameRows retried_world.db (process_step quiet context [] done_step retried_world).1.db
process_step-skips_example =
    process_step-skips quiet quiet-IsQuiet context [] done_step done_row retried_world done_found
      refl refl

process_step-waits_example :
    ((process_step quiet context [] open_step retried_world).0 ≡ err (claim_error open_step))
    × ((claim_error open_step).is_retryable ≡ true)
    × SameRows retried_world.db (process_step quiet context [] open_step retried_world).1.db
process_step-waits_example =
    process_step-waits quiet quiet-IsQuiet context [] open_step open_row retried_world open_found
      refl refl

abbrev failed_world : World
failed_world = world_of (db_with retried_row completed failed)

abbrev failed_row : ExecutionStep
failed_row = step_row "s2" "t2" failed

abbrev failed_step : StepDetails
failed_step = with_template failed_row comment_template
