-- ===== src/Executions/Lifecycle/Statements.antt =====
-- Each statement of the repositories lets the executions advance.
use gov_flow.Prelude.{[], ◌∷◌, ◌++◌, ℕ, ◌≤◌, String, ◌≡◌, refl, true, arith}
use gov_flow.Js.Value.{Value}
use gov_flow.Database.{Db, Execution, ExecutionStatus, AuditEntry}
use gov_flow.Executions.Repository.{
  find_by_id, claim_pending_execution, finalize_running_execution, find_stale_running,
  fail_stale_running, is_claimable, set_claimed, is_finalizable, set_finalized, is_stale,
  set_failed_stale,
}
use gov_flow.Executions.StepRepository.{
  StatusChange, find_by_execution_id, claim_pending_step, update_status,
  fail_running_by_execution_id,
}
use gov_flow.AuditLogs.{insert_entry}
use gov_flow.Runtime.Atomic.{check-ok}
use gov_flow.Runtime.{Result, ok}
use gov_flow.Runtime.Keeps.{OpKeeps}
use gov_flow.Executions.Lifecycle.{Advances, Evolves, Evolves-of_eq, update-Fate, rank}

set_claimed-Advances :
    (now : ℕ) (x : Execution) → is_claimable x ≡ true → Advances x (set_claimed now x)
set_claimed-Advances now x h = record {
  same_id = refl;
  same_workflow = refl;
  same_starter = refl;
  same_input = refl;
  forward = ground arith;
  final = λ p. ground arith;
  start_kept = λ t p. ground arith;
  start_set = λ p q. refl;
}

set_finalized-Advances :
    (status : ExecutionStatus) (result : Value) (now : ℕ) (x : Execution)
    → 1 ≤ rank status
    → is_finalizable x ≡ true
    → Advances x (set_finalized status result now x)
set_finalized-Advances status result now x r h = record {
  same_id = refl;
  same_workflow = refl;
  same_starter = refl;
  same_input = refl;
  forward = ground arith;
  final = λ p. ground arith;
  start_kept = λ t p. p;
  start_set = λ p q. ground arith;
}

set_failed_stale-Advances :
    (timeout now : ℕ) (result : Value) (x : Execution)
    → is_stale timeout now x ≡ true
    → Advances x (set_failed_stale result now x)
set_failed_stale-Advances timeout now result x h = record {
  same_id = refl;
  same_workflow = refl;
  same_starter = refl;
  same_input = refl;
  forward = ground arith;
  final = λ p. ground arith;
  start_kept = λ t p. p;
  start_set = λ p q. ground arith;
}

-- A statement that leaves the executions alone.
abbrev pub Untouched : {A : Type 0} → (ℕ → Db → Result (A × Db)) → Type 0
Untouched {A} op = (n : ℕ) (d d' : Db) (a : A) → op n d ≡ ok (a, d') → d'.executions ≡ d.executions

pub OpKeeps-of_Untouched :
    {A : Type 0} (op : ℕ → Db → Result (A × Db)) → Untouched op → OpKeeps Evolves op
OpKeeps-of_Untouched op h n d d' a e = Evolves-of_eq d d' (h n d d' a e)

pub find_by_id-Evolves : (id : String) → OpKeeps Evolves (find_by_id id)
unfolding find_by_id
find_by_id-Evolves id = OpKeeps-of_Untouched _ (λ n d d' a e. ground arith)

pub find_stale_running-Evolves :
    (timeout limit : ℕ) → OpKeeps Evolves (find_stale_running timeout limit)
unfolding find_stale_running
find_stale_running-Evolves timeout limit = OpKeeps-of_Untouched _ (λ n d d' a e. ground arith)

pub find_by_execution_id-Evolves : (id : String) → OpKeeps Evolves (find_by_execution_id id)
unfolding find_by_execution_id
find_by_execution_id-Evolves id = OpKeeps-of_Untouched _ (λ n d d' a e. ground arith)

pub claim_pending_step-Evolves : (id : String) → OpKeeps Evolves (claim_pending_step id)
unfolding claim_pending_step
claim_pending_step-Evolves id = OpKeeps-of_Untouched _ (λ n d d' a e. ground arith)

pub update_status-Evolves : (id : String) (c : StatusChange) → OpKeeps Evolves (update_status id c)
unfolding update_status
update_status-Evolves id c = OpKeeps-of_Untouched _ (λ n d d' a e. ground arith)

pub fail_running-Evolves :
    (id message : String) → OpKeeps Evolves (fail_running_by_execution_id id message)
unfolding fail_running_by_execution_id
fail_running-Evolves id message = OpKeeps-of_Untouched _ (λ n d d' a e. ground arith)

result_db :
    {A : Type 0} (d d' : Db) (a b : A)
    → ◌≡◌ {A = Result (A × Db)} (ok (a, d)) (ok (b, d'))
    → d'.executions ≡ d.executions
result_db d d' a b e = ground arith

abbrev logged : AuditEntry → ℕ → Db → Db
logged entry n d = record d {
  audit_logs = d.audit_logs ++ record { entry = entry; created_at = n } ∷ [];
}

pub insert_entry-Evolves : (entry : AuditEntry) → OpKeeps Evolves (insert_entry entry)
unfolding insert_entry
insert_entry-Evolves entry = OpKeeps-of_Untouched _ (λ n d d' a e.
    result_db (logged entry n d) d' (record { entry = entry; created_at = n }) a
      (check-ok _ _ _ _ e).1)

pub claim_pending_execution-Evolves : (id : String) → OpKeeps Evolves (claim_pending_execution id)
unfolding claim_pending_execution
claim_pending_execution-Evolves id n d d' a e k =
    rw (result_db _ d' _ a e) (
      update-Fate is_claimable (set_claimed n) _ k d.executions (λ x. refl)
        (set_claimed-Advances n))

pub finalize_running_execution-Evolves :
    (id : String) (status : ExecutionStatus) (result : Value)
    → 1 ≤ rank status
    → OpKeeps Evolves (finalize_running_execution id status result)
unfolding finalize_running_execution
finalize_running_execution-Evolves id status result r n d d' a e k = rw (result_db _ d' _ a e) (
    update-Fate is_finalizable (set_finalized status result n) _ k d.executions (λ x. refl)
      (λ x. set_finalized-Advances status result n x r))

pub fail_stale_running-Evolves :
    (id : String) (timeout : ℕ) (result : Value)
    → OpKeeps Evolves (fail_stale_running id timeout result)
unfolding fail_stale_running
fail_stale_running-Evolves id timeout result n d d' a e k = rw (result_db _ d' _ a e) (
    update-Fate (is_stale timeout n) (set_failed_stale result n) _ k d.executions (λ x. refl)
      (set_failed_stale-Advances timeout n result))
