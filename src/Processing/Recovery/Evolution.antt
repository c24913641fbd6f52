-- ===== src/Processing/Recovery/Evolution.antt =====
-- Every recovery lets the executions advance.
use gov_flow.Prelude.{ℕ, zero, suc, String, List, [], ◌∷◌, Option, none, some}
use gov_flow.Js.Value.{Value, undefined, str}
use gov_flow.Database.{Execution, ExecutionStep}
use gov_flow.Executions.StepRepository.{StepDetails}
use gov_flow.Executions.Lifecycle.{Evolves}
use gov_flow.Executions.Lifecycle.Statements.{
  find_by_execution_id-Evolves, update_status-Evolves, find_stale_running-Evolves,
  fail_running-Evolves, fail_stale_running-Evolves, insert_entry-Evolves,
}
use gov_flow.Jira.Service.{
  FoundComment, find_comment_by_execution_step_marker, lookup_pages, PageSearch, broken, missing,
  match, after_page, after_reply,
}
use gov_flow.Runtime.{Env, M, JiraReply, answered, rejected}
use gov_flow.Runtime.Keeps.{
  Keeps, IsRely, Keeps-pure, Keeps-throw, Keeps-bind, Keeps-if, Keeps-call_jira, Keeps-statement,
  Keeps-transaction,
}
use gov_flow.Processing.Handlers.Frame.{flow, safe_register-Keeps}
use gov_flow.Processing.Recovery.{
  Recovery, RecoveredStep, RecoveredExecution, Sorted, trim_value, look_up_steps,
  find_remote_recovered_step_outputs_by_id, sort_failed_step, sort_failed_steps,
  recover_in_transaction, attempt_recovery, audit_recovered_steps, audit_recovery, after_attempt,
  recover_each, recover_stale_running_executions,
}

module _ {env : Env} (rely : IsRely env Evolves) where
  ruleset trx = (flow, Keeps-statement, Keeps-transaction, safe_register-Keeps)

  after_page-Keeps :
      (key : String) (v : Value) (next : ℕ) (found : PageSearch) (rest : M (Option FoundComment))
      → Keeps Evolves rest
      → Keeps Evolves (after_page env key v next found rest)
  after_page-Keeps key v next broken rest k = Keeps-pure rely _
  after_page-Keeps key v next (match c) rest k = Keeps-pure rely _
  after_page-Keeps key v next missing rest k = Keeps-if rely _ _ _ (Keeps-pure rely _) k

  after_reply-Keeps :
      (key marker : String) (start : ℕ) (reply : JiraReply) (rest : ℕ → M (Option FoundComment))
      → ((n : ℕ) → Keeps Evolves (rest n))
      → Keeps Evolves (after_reply env key marker start reply rest)
  after_reply-Keeps key marker start (rejected f) rest k = Keeps-pure rely _
  after_reply-Keeps key marker start (answered v) rest k = after_page-Keeps key v _ _ _ (k _)

  lookup_pages-Keeps :
      (pages : ℕ) (key marker : String) (start : ℕ)
      → Keeps Evolves (lookup_pages env pages key marker start)
  unfolding lookup_pages
  lookup_pages-Keeps zero key marker start = Keeps-pure rely _
  lookup_pages-Keeps (suc pages) key marker start =
      Keeps-bind rely _ _ (Keeps-call_jira rely _)
        (λ reply. after_reply-Keeps key marker start reply _ (lookup_pages-Keeps pages key marker))

  trim_value-Keeps : (v : Value) → Keeps Evolves (trim_value v)
  trim_value-Keeps (str s) = Keeps-pure rely _
  trim_value-Keeps undefined = Keeps-throw rely _
  trim_value-Keeps _ = Keeps-throw rely _

  find_comment-Keeps :
      (key id : String) → Keeps Evolves (find_comment_by_execution_step_marker env key id)
  unfolding find_comment_by_execution_step_marker
  find_comment-Keeps key id = Keeps-if rely _ _ _ (Keeps-pure rely _) (lookup_pages-Keeps 3 key _ 0)

  look_up_steps-Keeps : (steps : List StepDetails) → Keeps Evolves (look_up_steps env steps)
  unfolding look_up_steps
  look_up_steps-Keeps [] = Keeps-pure rely _
  look_up_steps-Keeps (step ∷ rest) = Keeps-bind rely _ _ (trim_value-Keeps _) (λ key.
      Keeps-bind rely _ _ (find_comment-Keeps key step.id)
        (λ found. Keeps-bind rely _ _ (look_up_steps-Keeps rest) (λ later. Keeps-pure rely _)))

  remote-Keeps : (id : String) → Keeps Evolves (find_remote_recovered_step_outputs_by_id env id)
  unfolding find_remote_recovered_step_outputs_by_id
  remote-Keeps id = search (flow, find_by_execution_id-Evolves, look_up_steps-Keeps, rely) depth 12

  sort_failed_step-Keeps :
      (o : Option RecoveredStep) (step : ExecutionStep) (rest : M Sorted)
      → Keeps Evolves rest
      → Keeps Evolves (sort_failed_step env o step rest)
  sort_failed_step-Keeps none step rest k = search (flow, rely) depth 12
  sort_failed_step-Keeps (some r) step rest k = search (trx, update_status-Evolves, rely) depth 12

  sort_failed_steps-Keeps :
      (recovered : List RecoveredStep) (steps : List ExecutionStep)
      → Keeps Evolves (sort_failed_steps env recovered steps)
  unfolding sort_failed_steps
  sort_failed_steps-Keeps recovered [] = Keeps-pure rely _
  sort_failed_steps-Keeps recovered (step ∷ rest) =
      sort_failed_step-Keeps _ step _ (sort_failed_steps-Keeps recovered rest)

  attempt-Keeps :
      (by : Value) (timeout : ℕ) (x : Execution) → Keeps Evolves (attempt_recovery env by timeout x)
  unfolding attempt_recovery recover_in_transaction
  attempt-Keeps by timeout x =
      search
        (
          trx, remote-Keeps, fail_running-Evolves, sort_failed_steps-Keeps,
          fail_stale_running-Evolves, rely,
        )
        depth 20

  audit_steps-Keeps :
      (by : Value) (id : String) (steps : List RecoveredStep)
      → Keeps Evolves (audit_recovered_steps env by id steps)
  unfolding audit_recovered_steps
  audit_steps-Keeps by id [] = Keeps-pure rely _
  audit_steps-Keeps by id (r ∷ rest) =
      Keeps-bind rely _ _ (safe_register-Keeps rely insert_entry-Evolves _)
        (λ _. audit_steps-Keeps by id rest)

  audit_recovery-Keeps :
      (by : Value) (timeout : ℕ) (r : Recovery) → Keeps Evolves (audit_recovery env by timeout r)
  unfolding audit_recovery
  audit_recovery-Keeps by timeout r =
      Keeps-bind rely _ _ (safe_register-Keeps rely insert_entry-Evolves _)
        (λ _. audit_steps-Keeps by _ _)

  after_attempt-Keeps :
      (by : Value) (timeout : ℕ) (o : Option Recovery) (rest : M (List RecoveredExecution))
      → Keeps Evolves rest
      → Keeps Evolves (after_attempt env by timeout o rest)
  after_attempt-Keeps by timeout none rest k = k
  after_attempt-Keeps by timeout (some r) rest k =
      Keeps-bind rely _ _ (audit_recovery-Keeps by timeout r)
        (λ _. Keeps-bind rely _ _ k (λ later. Keeps-pure rely _))

  recover_each-Keeps :
      (by : Value) (timeout : ℕ) (xs : List Execution)
      → Keeps Evolves (recover_each env by timeout xs)
  unfolding recover_each
  recover_each-Keeps by timeout [] = Keeps-pure rely _
  recover_each-Keeps by timeout (x ∷ xs) =
      Keeps-bind rely _ _ (attempt-Keeps by timeout x)
        (λ o. after_attempt-Keeps by timeout o _ (recover_each-Keeps by timeout xs))

  pub recovery-Keeps :
      (by timeout limit : Value)
      → Keeps Evolves (recover_stale_running_executions env by timeout limit)
  unfolding recover_stale_running_executions
  recovery-Keeps by timeout limit =
      search (flow, find_stale_running-Evolves, recover_each-Keeps, rely) depth 12
