-- ===== src/Processing/Processor/Step.antt =====
-- One step of the loop, with nobody else at the database: what each outcome of the handler leaves.
use gov_flow.Prelude.{
  ℕ, suc, String, Bool, true, false, [], ◌∷◌, ◌++◌, ◌≡◌, refl, ◌∙◌, ap, subst, List, Option, none,
  some, arith, ◌==◌, eq_refl,
}
use gov_flow.Js.Text.{to_lower_case}
use gov_flow.Js.Value.{Value}
use gov_flow.Database.{Db, ExecutionStep, pending, AuditEntry, AuditLog}
use gov_flow.Database.Table.{lookup, update, lookup-update, updated-eq-some}
use gov_flow.Executions.Repository.{ExecutionDetails}
use gov_flow.Executions.StepRepository.{
  StepDetails, StatusChange, find_step, step_key, claim_pending_step, update_step, update_status,
  is_step_claimable, set_step_claimed, set_status,
}
use gov_flow.AuditLogs.{insert_entry, safe_register_audit_log}
use gov_flow.Validators.AuditLogs.{AuditPayload}
use gov_flow.Runtime.{Env, World, Result, ok, query, try}
use gov_flow.Runtime.Atomic.{check-ok}
use gov_flow.Runtime.Keeps.{IsRely, OpKeeps}
use gov_flow.Runtime.Quiet.{IsQuiet, bind-ok, query_quiet}
use gov_flow.Processing.Handlers.{handle_workflow_step_with_context}
use gov_flow.Processing.Handlers.Frame
use gov_flow.Processing.Processor.{
  Context, StepOutput, get_external_operation_dedup_reason, run_handler, on_handler_error,
  process_step, on_claimed,
}

-- The rows of executions and of their steps are the same.
abbrev pub SameRows : Db → Db → Type 0
SameRows d e = (e.execution_steps ≡ d.execution_steps) × (e.executions ≡ d.executions)

rows_rely : (env : Env) → IsQuiet env → IsRely env SameRows
rows_rely env q = record {
  same = λ d. (refl, refl);
  chain = λ a b c h k. (k.0 ∙ h.0, k.1 ∙ h.1);
  others = λ n d. rw (q.alone n d) (refl, refl);
  meanwhile = λ n d. rw (q.serial n d) (refl, refl);
}

insert_entry-SameRows : (e : AuditEntry) → OpKeeps SameRows (insert_entry e)
unfolding insert_entry
insert_entry-SameRows e n d d' a h = same d d' _ a (check-ok _ _ _ _ h).1
  where
    same :
        (b b' : Db) (x y : AuditLog)
        → ◌≡◌ {A = Result (AuditLog × Db)}
            (ok (x, record b { audit_logs = b.audit_logs ++ x ∷ [] }))
            (ok (y, b'))
        → SameRows b b'
    same b b' x y e = ground arith

pub handler-SameRows :
    (env : Env)
    → IsQuiet env
    → (step : StepDetails) (x : ExecutionDetails) (w : World)
    → SameRows w.db (handle_workflow_step_with_context env step x w).1.db
handler-SameRows env q step x w =
    (Frame.handler-Keeps (rows_rely env q) insert_entry-SameRows step x).at w

pub audit_rows :
    (env : Env)
    → IsQuiet env
    → (p : AuditPayload) (w : World) → SameRows w.db (safe_register_audit_log env p w).1.db
audit_rows env q p w = (Frame.safe_register-Keeps (rows_rely env q) insert_entry-SameRows p).at w

-- The world after a statement that a quiet run makes of the step with an id.
abbrev pub step_written :
    World → String → (ExecutionStep → Bool) → (ExecutionStep → ExecutionStep) → World
step_written w id guard set = record w {
  db = record w.db {
    execution_steps = update step_key (to_lower_case id) guard set w.db.execution_steps;
  };
  ticks = suc w.ticks;
}

module _ (env : Env) (q : IsQuiet env) where
  -- A statement that finds its row, and whose guard holds there.
  write_step :
      (id : String) (guard : ExecutionStep → Bool) (set : ℕ → ExecutionStep → ExecutionStep)
      (row : ExecutionStep) (w : World)
      → find_step id w.db ≡ some row
      → guard row ≡ true
      → query env (λ now d. update_step id guard (set now) d) w
        ≡ (ok (some (set (env.now w.ticks) row)), step_written w id guard (set (env.now w.ticks)))
  write_step id guard set row w found holds =
      query_quiet env q _ w
      ∙ ap (λ (o : Option ExecutionStep). (ok o, step_written w id guard (set (env.now w.ticks))))
          (updated-eq-some step_key _ guard (set (env.now w.ticks)) w.db.execution_steps row found
            holds)

  claim_quiet :
      (id : String) (row : ExecutionStep) (w : World)
      → find_step id w.db ≡ some row
      → row.status ≡ pending
      → query env (claim_pending_step id) w ≡ (
        ok (some (set_step_claimed (env.now w.ticks) row)),
        step_written w id is_step_claimable (set_step_claimed (env.now w.ticks)),
      )
  unfolding claim_pending_step
  claim_quiet id row w found p =
      write_step id is_step_claimable set_step_claimed row w found (ground arith)

  pub status_quiet :
      (id : String) (change : StatusChange) (row : ExecutionStep) (w : World)
      → find_step id w.db ≡ some row
      → query env (update_status id change) w ≡ (
        ok (some (set_status change (env.now w.ticks) row)),
        step_written w id (λ s. true) (set_status change (env.now w.ticks)),
      )
  unfolding update_status
  status_quiet id change row w found =
      write_step id (λ s. true) (set_status change) row w found refl

module _ (id : String) (guard : ExecutionStep → Bool) (set : ExecutionStep → ExecutionStep)
    (same : (s : ExecutionStep) → step_key (set s) ≡ step_key s) where
  written_self :
      (w : World) (row : ExecutionStep)
      → find_step id w.db ≡ some row
      → guard row ≡ true
      → find_step id (step_written w id guard set).db ≡ some (set row)
  written_self w row found holds =
      lookup-update step_key guard set same _ _ w.db.execution_steps
      ∙ rw (eq_refl (to_lower_case id), found) (rw holds refl)

  written-other :
      (w : World) (k : String)
      → (to_lower_case id == to_lower_case k) ≡ false
      → find_step k (step_written w id guard set).db ≡ find_step k w.db
  written-other w k other =
      lookup-update step_key guard set same _ _ w.db.execution_steps ∙ rw other refl

-- From one database to another the row of one step has come to satisfy a condition; the rows of the
-- other steps and of the executions are the same.
abbrev pub Rewritten : String → (ExecutionStep → Type 0) → Db → Db → Type 0
Rewritten id P d e =
    ((row : ExecutionStep) × (find_step id e ≡ some row) × P row)
    × ((k : String) → (to_lower_case id == to_lower_case k) ≡ false → find_step k e ≡ find_step k d)
    × (e.executions ≡ d.executions)

abbrev pub claimed_row : Env → World → ExecutionStep → ExecutionStep
claimed_row env w row = set_step_claimed (env.now w.ticks) row

-- The world after the claim of a step whose row was PENDING.
abbrev pub claimed : Env → StepDetails → World → World
claimed env step w = step_written w step.id is_step_claimable (set_step_claimed (env.now w.ticks))

module _ (env : Env) (q : IsQuiet env) (step : StepDetails) (row : ExecutionStep) (w : World)
    (found : find_step step.id w.db ≡ some row) (unclaimed : row.status ≡ pending) where
  -- A claim, anything that leaves the rows alone, and a change of the status.
  pub claim_then_write :
      (w2 : World) (change : StatusChange) (n : ℕ) (P : ExecutionStep → Type 0)
      → SameRows (claimed env step w).db w2.db
      → P (set_status change n (claimed_row env w row))
      → Rewritten step.id P w.db (step_written w2 step.id (λ s. true) (set_status change n)).db
  claim_then_write w2 change n P rows holds = (
    (
      set_status change n (claimed_row env w row),
      written_self step.id (λ s. true) (set_status change n) (λ s. refl) w2 (claimed_row env w row)
          (ap (lookup step_key (to_lower_case step.id)) rows.0
            ∙ written_self step.id is_step_claimable (set_step_claimed (env.now w.ticks))
                (λ s. refl) w row found (ground arith))
          refl,
      holds,
    ),
    (λ k other.
        written-other step.id (λ s. true) (set_status change n) (λ s. refl) w2 k other
        ∙ ap (lookup step_key (to_lower_case k)) rows.0
        ∙ written-other step.id is_step_claimable (set_step_claimed (env.now w.ticks)) (λ s. refl) w
            k other),
    rows.1,
  )

  -- Before its second write the row is there still.
  pub claimed_found :
      (w2 : World)
      → SameRows (claimed env step w).db w2.db
      → find_step step.id w2.db ≡ some (claimed_row env w row)
  claimed_found w2 rows =
      ap (lookup step_key (to_lower_case step.id)) rows.0
      ∙ written_self step.id is_step_claimable (set_step_claimed (env.now w.ticks)) (λ s. refl) w
          row found (ground arith)

  module _ (c : Context) (outputs : List StepOutput)
      (fresh : get_external_operation_dedup_reason step.output ≡ none) where
    pub process_step-claimed :
        process_step env c outputs step w
        ≡ try (run_handler env c step) (on_handler_error env c outputs step) (claimed env step w)
    unfolding process_step
    process_step-claimed =
        bind-ok _ _ w (claimed env step w) _ (claim_quiet env q step.id row w found unclaimed)
        ∙ ap (λ (o : Option String). on_claimed env c o outputs step (claimed env step w)) fresh

    pub handler_rows :
        (r : Result Value) (w2 : World)
        → handle_workflow_step_with_context env step c.execution (claimed env step w) ≡ (r, w2)
        → SameRows (claimed env step w).db w2.db
    handler_rows r w2 h =
        subst (λ (o : Result Value × World). SameRows (claimed env step w).db o.1.db) h
          (handler-SameRows env q step c.execution (claimed env step w))

-- What holds of a step's row holds after anything that leaves the rows alone.
pub Rewritten-SameRows :
    (id : String) (P : ExecutionStep → Type 0) (d e f : Db)
    → Rewritten id P d e
    → SameRows e f
    → Rewritten id P d f
Rewritten-SameRows id P d e f r s = (
  (r.0.0, ap (lookup step_key (to_lower_case id)) s.0 ∙ r.0.1, r.0.2),
  (λ k other. ap (lookup step_key (to_lower_case k)) s.0 ∙ r.1 k other),
  s.1 ∙ r.2,
)
