-- ===== src/Queue/Entry.antt =====
-- When an execution is added to the queue.
use gov_flow.Prelude.{String, true, ◌≡◌, List, [], ◌∷◌, Option, some}
use gov_flow.Js.Value.{Value, text_of}
use gov_flow.Database.{Db, Execution, is_pending}
use gov_flow.Access.{Requester, can_access}
use gov_flow.Executions.Repository.{ExecutionDetails, with_workflow, find_execution}
use gov_flow.Runtime.{Env, World, QueueCall, add_job, await}
use gov_flow.Runtime.Both.{Both}
use gov_flow.Queue.{QueueService, build_workflow_processing_job_id}
use gov_flow.Queue.Calls.{Traces}

-- The execution that a request meets, under the id that it names
pub record IsQueueable (id : String) (requester : Option Requester) (d : Db) : Type 0 where
  pub execution : Execution
  pub found : find_execution id d ≡ some execution
  pub pending_status : is_pending execution.status ≡ true
  pub accessible : can_access (some (with_workflow d execution).department_id) requester ≡ true

-- No call, or the addition of the job of an execution that may be queued.
pub data EnqueueCalls (id : String) (requester : Option Requester) (d : Db)
    : List QueueCall → Type 0 where
  nothing_added : EnqueueCalls id requester d []
  job_added :
      IsQueueable id requester d
      → EnqueueCalls id requester d (add_job (build_workflow_processing_job_id id) ∷ [])

module _ (q : QueueService) (env : Env) (id : Value) (processed_by : Option String)
    (requester : Option Requester) (w : World) where
  abbrev EnqueueTraces : World → Type 0
  EnqueueTraces v = Traces (EnqueueCalls (text_of id) requester (await env w).db) w v

  -- The execution that was read, before any call
  abbrev IsRead : ExecutionDetails → World → Type 0
  IsRead x v =
      (y : Execution) × (find_execution (text_of id) (await env w).db ≡ some y)
      × (x ≡ with_workflow (await env w).db y)
      × (can_access (some x.department_id) requester ≡ true)
      × (v.queue_calls ≡ w.queue_calls)
