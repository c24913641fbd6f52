-- ===== src/Executions/Service/Creation.antt =====
-- What the transaction of `createWorkflowExecution` writes.
use gov_flow.Prelude.{
  ℕ, suc, String, true, false, not, ◌≡◌, refl, sym, ◌∙◌, ap, subst, List, [], ◌∷◌, ◌++◌, map, All,
  is_empty, select,
}
use mathlib.Core.List.{append_assoc, append-nil}
use gov_flow.Js.Text.{to_lower_case}
use gov_flow.Js.Value.{Value}
use gov_flow.Database.{Db, Execution, ExecutionStep, WorkflowStep}
use gov_flow.Runtime.{Env, World, Result, ok, err, await, transaction, statement, pure}
use gov_flow.Runtime.Ends.{Ends, IsSerial, Ends-bind, Ends-serial, ok-db, ok-value}
use gov_flow.Runtime.Atomic.{
  AllOrNothing, transaction-AllOrNothing, check-ok, Ends-new_ids, Ends-require,
}
use gov_flow.Executions.Repository.{sort_by}
use gov_flow.Workflows.StepRepository.{active_step_of, earlier_step, find_active_steps}
use gov_flow.Executions.Rows.{
  new_execution, insert_execution, new_step_row, new_step_rows, insert_step_row, insert_step_rows,
  and_then, create_many,
}
use gov_flow.Executions.Service.{CreatedExecution, insert_execution_and_steps}

-- The active steps of a workflow, in their order
unfoldable pub active_steps : String → Db → List WorkflowStep
active_steps workflow_id d =
    sort_by earlier_step (select (active_step_of workflow_id) d.workflow_steps)

-- A row as `createMany` writes it, but for its id
abbrev pub IsNewStep : String → ExecutionStep → Type 0
IsNewStep execution_id s =
    (id : String) × (step_id : String) × (now : ℕ) × (s ≡ new_step_row id execution_id step_id now)

-- What the creation of an execution leaves, on tables that it found as `before`.
pub record IsCreated (workflow_id started_by : String) (input : Value) (before : Db)
    (c : CreatedExecution) (d : Db) : Type 0 where
  pub id : String
  pub time : ℕ
  pub row : c.execution ≡ new_execution id workflow_id started_by input time
  pub some_step : is_empty c.steps ≡ false
  pub each_new : All (IsNewStep c.execution.id) c.steps
  pub in_order :
      map (λ s. s.step_id) c.steps ≡ map (λ t. to_lower_case t.id) (active_steps workflow_id before)
  pub tables : d ≡ record before {
    executions = before.executions ++ c.execution ∷ [];
    execution_steps = before.execution_steps ++ c.steps;
  }

abbrev add_execution : Execution → Db → Db
add_execution x d = record d { executions = d.executions ++ x ∷ [] }

abbrev add_steps : List ExecutionStep → Db → Db
add_steps steps d = record d { execution_steps = d.execution_steps ++ steps }

insert_execution-ok :
    (id workflow_id started_by : String) (input : Value) (n : ℕ) (d d' : Db) (x : Execution)
    → insert_execution id workflow_id started_by input n d ≡ ok (x, d')
    → (x ≡ new_execution id workflow_id started_by input n) × (d' ≡ add_execution x d)
unfolding insert_execution
insert_execution-ok id workflow_id started_by input n d d' x e =
    let inserted = (check-ok _ _ _ _ (check-ok _ _ _ _ (check-ok _ _ _ _ e).1).1).1 in
    let same = sym (
      ok-value (new_execution id workflow_id started_by input n) x
        (add_execution (new_execution id workflow_id started_by input n) d) d' inserted) in
    (
      same,
      sym (
            ok-db (new_execution id workflow_id started_by input n) x
              (add_execution (new_execution id workflow_id started_by input n) d) d' inserted)
          ∙ ap (λ (y : Execution). add_execution y d) (sym same),
    )

insert_step_row-ok :
    (s s' : ExecutionStep) (d d' : Db)
    → insert_step_row s d ≡ ok (s', d')
    → (s' ≡ s) × (d' ≡ add_steps (s ∷ []) d)
insert_step_row-ok s s' d d' e =
    let inserted =
      (check-ok _ _ _ _ (check-ok _ _ _ _ (check-ok _ _ _ _ (check-ok _ _ _ _ e).1).1).1).1 in
    (
      sym (ok-value s s' (add_steps (s ∷ []) d) d' inserted),
      sym (ok-db s s' (add_steps (s ∷ []) d) d' inserted),
    )

and_then-ok :
    {A B : Type 0} (r : Result (A × Db)) (f : A → Db → Result (B × Db)) (b : B) (d : Db)
    → and_then r f ≡ ok (b, d)
    → (a : A) × (d' : Db) × (r ≡ ok (a, d')) × (f a d' ≡ ok (b, d))
and_then-ok (ok (a, d')) f b d e = (a, d', refl, e)
and_then-ok (err x) f b d e = cc

no_steps : (d : Db) → d ≡ add_steps [] d
no_steps d =
    ap (λ (l : List ExecutionStep). record d { execution_steps = l })
      (sym (append-nil d.execution_steps))

insert_step_rows-ok :
    (rows rows' : List ExecutionStep) (d d' : Db)
    → insert_step_rows rows d ≡ ok (rows', d')
    → (rows' ≡ rows) × (d' ≡ add_steps rows d)
insert_step_rows-ok [] rows' d d' e =
    (sym (ok-value [] rows' d d' e), sym (ok-db [] rows' d d' e) ∙ no_steps d)
insert_step_rows-ok (s ∷ rest) rows' d d' e =
    let first = and_then-ok (insert_step_row s d) _ rows' d' e in
    let row = insert_step_row-ok s first.0 d first.1 first.2 in
    let more = and_then-ok (insert_step_rows rest first.1) _ rows' d' first.3 in
    let rows = insert_step_rows-ok rest more.0 first.1 more.1 more.2 in
    (
      sym (ok-value (first.0 ∷ more.0) rows' more.1 d' more.3)
          ∙ ap (λ (x : ExecutionStep). x ∷ more.0) row.0
          ∙ ap (λ (l : List ExecutionStep). s ∷ l) rows.0,
      sym (ok-db (first.0 ∷ more.0) rows' more.1 d' more.3)
          ∙ rows.1
          ∙ ap (λ (x : Db). add_steps rest x) row.1
          ∙ ap (λ (l : List ExecutionStep). record d { execution_steps = l })
              (append_assoc d.execution_steps (s ∷ []) rest),
    )

module _ (execution_id : String) (now : ℕ) where
  new_step_rows-IsNewStep :
      (ids : ℕ → String) (steps : List WorkflowStep)
      → All (IsNewStep execution_id) (new_step_rows ids execution_id steps now)
  new_step_rows-IsNewStep ids [] = tt
  new_step_rows-IsNewStep ids (t ∷ rest) =
      ((ids 0, t.id, now, refl), new_step_rows-IsNewStep (λ n. ids (suc n)) rest)

  step_ids-new_step_rows :
      (ids : ℕ → String) (steps : List WorkflowStep)
      → map (λ s. s.step_id) (new_step_rows ids execution_id steps now)
        ≡ map (λ t. to_lower_case t.id) steps
  step_ids-new_step_rows ids [] = refl
  step_ids-new_step_rows ids (t ∷ rest) =
      ap (λ (l : List String). to_lower_case t.id ∷ l)
        (step_ids-new_step_rows (λ n. ids (suc n)) rest)

  some_new_step :
      (ids : ℕ → String) (steps : List WorkflowStep)
      → not (is_empty steps) ≡ true
      → is_empty (new_step_rows ids execution_id steps now) ≡ false
  some_new_step ids [] h = cc
  some_new_step ids (t ∷ rest) h = refl

module _ (env : Env) (alone : IsSerial env) (workflow_id started_by : String) (input : Value)
    (w : World) where
  abbrev Inserted : Execution → World → Type 0
  Inserted x v =
      (id : String) × (time : ℕ) × (x ≡ new_execution id workflow_id started_by input time)
      × (v.db ≡ add_execution x w.db)

  create_many-IsCreated :
      (x : Execution) (ids : ℕ → String) (v : World)
      → Inserted x v
      → not (is_empty (active_steps workflow_id w.db)) ≡ true
      → Ends
          (λ rows u.
            IsCreated workflow_id started_by input w.db
              (record { execution = x; steps = rows })
              u.db)
          (statement env (create_many ids x.id (active_steps workflow_id w.db)) v)
  unfolding create_many
  create_many-IsCreated x ids v (id, time, row, tables) h =
      Ends-serial env alone _ _ v (λ n rows u e.
        let made = insert_step_rows-ok _ rows v.db u.db e in
        let steps = active_steps workflow_id w.db in
        record {
          id = id;
          time = time;
          row = row;
          some_step = ap is_empty made.0 ∙ some_new_step x.id n ids steps h;
          each_new =
              subst (All (IsNewStep x.id)) (sym made.0) (new_step_rows-IsNewStep x.id n ids steps);
          in_order =
              ap (map (λ (s : ExecutionStep). s.step_id)) made.0
              ∙ step_ids-new_step_rows x.id n ids steps;
          tables =
              made.1
              ∙ ap (add_steps (new_step_rows ids x.id steps n)) tables
              ∙ ap (λ (l : List ExecutionStep). add_steps l (add_execution x w.db)) (sym made.0);
        })

  find_active-steps :
      (x : Execution) (v : World)
      → Inserted x v
      → Ends
          (λ steps u. Inserted x u × (steps ≡ active_steps workflow_id w.db))
          (statement env (find_active_steps workflow_id) v)
  unfolding find_active_steps active_steps
  find_active-steps x v (id, time, row, tables) = Ends-serial env alone _ _ v (λ n steps u e. (
    (id, time, row, sym (ok-db _ steps v.db u.db e) ∙ tables),
    sym (ok-value _ steps v.db u.db e) ∙ ap (λ (d : Db). active_steps workflow_id d) tables,
  ))

  body-IsCreated :
      Ends
        (λ c v. IsCreated workflow_id started_by input w.db c v.db)
        (insert_execution_and_steps env workflow_id input started_by w)
  unfolding insert_execution_and_steps pure
  body-IsCreated =
      Ends-bind (λ ids v. v ≡ w) _ _ _ w (Ends-new_ids env _ w refl)
        (λ ids v same.
          Ends-bind Inserted _ _ _ v
            (Ends-serial env alone _ _ v (λ n x u e.
              let made = insert_execution-ok (ids 0) workflow_id started_by input n v.db u.db x e in
              (ids 0, n, made.0, made.1 ∙ ap (λ (z : World). add_execution x z.db) same)))
            (λ x v1 h1. Ends-bind _ _ _ _ v1 (find_active-steps x v1 h1) (λ steps v2 (h2, s).
              Ends-bind (λ u v. Inserted x v × (not (is_empty steps) ≡ true)) _ _ _ v2
                (Ends-require _ _ _ v2 (λ b. (h2, b)))
                (λ u v3 (h3, b).
                  Ends-bind (λ ids v. Inserted x v) _ _ _ v3 (Ends-new_ids env _ v3 h3)
                    (λ ids2 v4 h4.
                      Ends-bind _ _ _ _ v4
                        (subst
                          (λ (l : List WorkflowStep).
                            Ends
                              (λ rows u.
                                IsCreated workflow_id started_by input w.db
                                  (record { execution = x; steps = rows }) u.db)
                              (statement env (create_many ids2 x.id l) v4))
                          (sym s)
                          (create_many-IsCreated x ids2 v4 h4
                            (ap (λ (l : List WorkflowStep). not (is_empty l)) (sym s) ∙ b)))
                        (λ rows v5 h5. h5))))))

-- Whatever fails and whatever others do before it, and as long as no other client commits between
-- its statements: the transaction of `createWorkflowExecution` writes all or nothing. If it
-- throws (no active step, a failed statement), the tables are those that it began on. If it returns,
-- it has added one PENDING execution of the workflow with the given starter and input, and one
-- PENDING row without output for each active step of the workflow, in the order of the steps, of
-- which there is at least one; all else in the tables is as it was.
pub insert_execution_and_steps-AllOrNothing :
    (env : Env) (workflow_id : String) (input : Value) (started_by : String) (w : World)
    → IsSerial env
    → AllOrNothing
        (IsCreated workflow_id started_by input (await env w).db)
        (await env w).db
        (transaction env (insert_execution_and_steps env workflow_id input started_by) w)
insert_execution_and_steps-AllOrNothing env workflow_id input started_by w alone =
    transaction-AllOrNothing env alone _ _ w
      (body-IsCreated env alone workflow_id started_by input (await env w))
