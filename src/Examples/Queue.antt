-- ===== src/Examples/Queue.antt =====
-- The theorems on the queue, with a queue that has one failed job.
use gov_flow.Prelude.{Option, none, some, []}
use gov_flow.Js.Value.{undefined}
use gov_flow.Database.{admin}
use gov_flow.Access.{Requester}
use gov_flow.Runtime.{ok}
use gov_flow.Runtime.Both.{Both}
use gov_flow.Queue.{QueueService, Job}
use gov_flow.Queue.Admin.{delete_job_by_id, retry_job_by_id}
use gov_flow.Queue.Calls.{Traces}
use gov_flow.Queue.Guards.{DeleteCalls, RetryCalls, delete_job_by_id-Traces, retry_job_by_id-Traces}
use gov_flow.Examples.World.{quiet, pending_world, admin_id}

abbrev failed_job : Job
failed_job = record {
  id = "j1";
  queue_name = none;
  data_of_job = undefined;
  attempts_made = some 3;
  attempts_started = some 3;
  max_attempts = some 3;
  failed_reason = some "timeout";
  processed_on = none;
  finished_on = none;
  timestamp = none;
}

abbrev one_failed_job : QueueService
one_failed_job = record {
  on_add = λ n id job_data. ok (record failed_job { id = id });
  on_get_job = λ n id. ok (some failed_job);
  on_get_state = λ n id. ok "failed";
  on_retry = λ n id. ok tt;
  on_remove = λ n id. ok tt;
  on_get_jobs = λ n state first last. ok [];
  on_get_counts = λ n states. ok [];
}

delete_job_by_id-Traces_example :
    Both
      (λ r v. Traces (DeleteCalls one_failed_job pending_world.ticks "j1") pending_world v)
      (Traces (DeleteCalls one_failed_job pending_world.ticks "j1") pending_world)
      (delete_job_by_id quiet one_failed_job "j1" pending_world)
delete_job_by_id-Traces_example = delete_job_by_id-Traces one_failed_job quiet "j1" pending_world

retry_job_by_id-Traces_example :
    Both
      (λ r v. Traces (RetryCalls one_failed_job pending_world.ticks "j1") pending_world v)
      (Traces (RetryCalls one_failed_job pending_world.ticks "j1") pending_world)
      (retry_job_by_id quiet one_failed_job "j1" pending_world)
retry_job_by_id-Traces_example = retry_job_by_id-Traces one_failed_job quiet "j1" pending_world

abbrev administrator : Option Requester
administrator = some (record { id = admin_id; role = admin; department_id = none })
