-- ===== src/Workflows/Service/Copy.antt =====
-- What `duplicate` of src/modules/workflows/workflows.repository.js writes.
use gov_flow.Prelude.{true, ℕ, String, ◌≡◌, refl, sym, ◌∙◌, ap, subst, List, [], ◌∷◌, ◌++◌, select}
use mathlib.Core.List.{append_assoc, append-nil}
use gov_flow.Js.Text.{to_lower_case}
use gov_flow.Database.{Db, Workflow, WorkflowStep}
use gov_flow.Runtime.{Env, World, ok, await, statement, pure}
use gov_flow.Runtime.Ends.{Ends, Ends-bind, Ends-weaken, IsSerial, Ends-serial, ok-db, ok-value}
use gov_flow.Runtime.Atomic.{AllOrNothing, transaction-AllOrNothing, check-ok, Ends-new_ids}
use gov_flow.Executions.Repository.{sort_by, workflow_key}
use gov_flow.Runtime.Insert.{is_new}
use gov_flow.Workflows.Repository.{NewWorkflow, workflow_of, insert_workflow}
use gov_flow.Workflows.StepRepository.{
  NewStep, step_of, earlier_step, find_steps, step_row_of, insert_step,
}
use gov_flow.Workflows.Service.{copy_of, copy_steps, duplicate_body, duplicate}

-- The steps of a workflow, in their order
unfoldable pub steps_of : String → Db → List WorkflowStep
steps_of workflow_id d = sort_by earlier_step (select (step_of workflow_id) d.workflow_steps)

-- A copy of a step under a workflow: all its columns but the id.
abbrev pub IsCopyOf : String → WorkflowStep → WorkflowStep → Type 0
IsCopyOf workflow_id s t =
    (id : String) × (t ≡ record s { id = id; workflow_id = to_lower_case workflow_id })

-- The copies of a list of steps, one for one.
abbrev pub AreCopies : String → List WorkflowStep → List WorkflowStep → Type 0
AreCopies workflow_id [] [] = Unit {0}
AreCopies workflow_id [] (t ∷ ts) = ⊥
AreCopies workflow_id (s ∷ ss) [] = ⊥
AreCopies workflow_id (s ∷ ss) (t ∷ ts) = IsCopyOf workflow_id s t × AreCopies workflow_id ss ts

-- What a duplication leaves, on tables that it found as `before`.
pub record IsDuplicated (source_id : String) (n : NewWorkflow) (before : Db) (created : Workflow)
    (d : Db) : Type 0 where
  pub id : String
  pub time : ℕ
  pub row : created ≡ workflow_of id n time
  pub fresh : is_new workflow_key id before.workflows ≡ true
  pub copies : List WorkflowStep
  pub copied : AreCopies created.id (steps_of source_id before) copies
  pub tables : d ≡ record before {
    workflows = before.workflows ++ created ∷ [];
    workflow_steps = before.workflow_steps ++ copies;
  }

abbrev add_workflow : Workflow → Db → Db
add_workflow x d = record d { workflows = d.workflows ++ x ∷ [] }

abbrev add_steps : List WorkflowStep → Db → Db
add_steps steps d = record d { workflow_steps = d.workflow_steps ++ steps }

insert_workflow-ok :
    (id : String) (new : NewWorkflow) (n : ℕ) (d d' : Db) (x : Workflow)
    → insert_workflow id new n d ≡ ok (x, d')
    → (x ≡ workflow_of id new n)
      × (d' ≡ add_workflow x d)
      × (is_new workflow_key id d.workflows ≡ true)
unfolding insert_workflow
insert_workflow-ok id new n d d' x e =
    let first = check-ok _ _ _ _ e in
    let inserted = (check-ok _ _ _ _ (check-ok _ _ _ _ first.1).1).1 in
    let y = workflow_of id new n in
    let same = sym (ok-value y x (add_workflow y d) d' inserted) in
    (
      same,
      sym (ok-db y x (add_workflow y d) d' inserted)
          ∙ ap (λ (z : Workflow). add_workflow z d) (sym same),
      first.0,
    )

insert_step-ok :
    (id : String) (new : NewStep) (n : ℕ) (d d' : Db) (x : WorkflowStep)
    → insert_step id new n d ≡ ok (x, d')
    → d' ≡ add_steps (step_row_of id new ∷ []) d
unfolding insert_step
insert_step-ok id new n d d' x e =
    let inserted =
      (check-ok _ _ _ _ (check-ok _ _ _ _ (check-ok _ _ _ _ (check-ok _ _ _ _ e).1).1).1).1 in
    sym (ok-db (step_row_of id new) x (add_steps (step_row_of id new ∷ []) d) d' inserted)

module _ (env : Env) (alone : IsSerial env) (workflow_id : String) where
  -- The loop adds a copy of each step.
  abbrev Copied : List WorkflowStep → Db → Db → Type 0
  Copied steps before d =
      (copies : List WorkflowStep) × AreCopies workflow_id steps copies
      × (d ≡ add_steps copies before)

  one_more :
      (s : WorkflowStep) (rest : List WorkflowStep) (id : String) (before d1 d : Db)
      → d1 ≡ add_steps (step_row_of id (copy_of workflow_id s) ∷ []) before
      → Copied rest d1 d
      → Copied (s ∷ rest) before d
  one_more s rest id before d1 d first (copies, each, more) = (
    step_row_of id (copy_of workflow_id s) ∷ copies,
    ((id, refl), each),
    more
        ∙ ap (add_steps copies) first
        ∙ ap (λ (l : List WorkflowStep). record before { workflow_steps = l })
            (append_assoc before.workflow_steps (step_row_of id (copy_of workflow_id s) ∷ [])
              copies),
  )

  copy_steps-Copied :
      (steps : List WorkflowStep) (w : World)
      → Ends (λ u v. Copied steps w.db v.db) (copy_steps env workflow_id steps w)
  unfolding copy_steps pure
  copy_steps-Copied [] w = (
    [],
    tt,
    ap (λ (l : List WorkflowStep). record w.db { workflow_steps = l })
        (sym (append-nil w.db.workflow_steps)),
  )
  copy_steps-Copied (s ∷ rest) w =
      Ends-bind (λ ids v. v ≡ w) _ _ _ w (Ends-new_ids env _ w refl)
        (λ ids v same.
          Ends-bind
            (λ x v1. v1.db ≡ add_steps (step_row_of (ids 0) (copy_of workflow_id s) ∷ []) w.db) _ _
            _ v
            (Ends-serial env alone _ _ v (λ n x u e.
              insert_step-ok (ids 0) (copy_of workflow_id s) n v.db u.db x e
              ∙ ap
                  (λ (z : World). add_steps (step_row_of (ids 0) (copy_of workflow_id s) ∷ []) z.db)
                  same))
            (λ x v1 h.
              Ends-weaken _ _ _ (copy_steps-Copied rest v1)
                (λ u v2 more. one_more s rest (ids 0) w.db v1.db v2.db h more)))

module _ (env : Env) (alone : IsSerial env) (source_id : String) (n : NewWorkflow) (w : World) where
  abbrev Inserted : Workflow → World → Type 0
  Inserted x v =
      (id : String) × (time : ℕ) × (x ≡ workflow_of id n time)
      × (v.db ≡ add_workflow x w.db)
      × (is_new workflow_key id w.db.workflows ≡ true)

  find_steps-steps_of :
      (x : Workflow) (v : World)
      → Inserted x v
      → Ends
          (λ steps u. Inserted x u × (steps ≡ steps_of source_id w.db))
          (statement env (find_steps source_id) v)
  unfolding find_steps steps_of
  find_steps-steps_of x v (id, time, row, tables, fresh) =
      Ends-serial env alone _ _ v (λ k steps u e. (
        (id, time, row, sym (ok-db _ steps v.db u.db e) ∙ tables, fresh),
        sym (ok-value _ steps v.db u.db e) ∙ ap (λ (d : Db). steps_of source_id d) tables,
      ))

  finish :
      (x : Workflow) (steps : List WorkflowStep) (v : World) (d : Db)
      → Inserted x v
      → steps ≡ steps_of source_id w.db
      → Copied env alone x.id steps v.db d
      → IsDuplicated source_id n w.db x d
  finish x steps v d (id, time, row, tables, fresh) same (copies, each, more) = record {
    fresh = fresh;
    id = id;
    time = time;
    row = row;
    copies = copies;
    copied = subst (λ (l : List WorkflowStep). AreCopies x.id l copies) same each;
    tables = more ∙ ap (add_steps copies) tables;
  }

  body-IsDuplicated :
      Ends (λ x v. IsDuplicated source_id n w.db x v.db) (duplicate_body env source_id n w)
  unfolding duplicate_body pure
  body-IsDuplicated =
      Ends-bind (λ ids v. v ≡ w) _ _ _ w (Ends-new_ids env _ w refl)
        (λ ids v same.
          Ends-bind Inserted _ _ _ v
            (Ends-serial env alone _ _ v (λ k x u e.
              let made = insert_workflow-ok (ids 0) n k v.db u.db x e in
              (
                ids 0,
                k,
                made.0,
                made.1 ∙ ap (λ (z : World). add_workflow x z.db) same,
                ap (λ (z : World). is_new workflow_key (ids 0) z.db.workflows) (sym same) ∙ made.2,
              )))
            (λ x v1 h1. Ends-bind _ _ _ _ v1 (find_steps-steps_of x v1 h1) (λ steps v2 (h2, s).
              Ends-bind _ _ _ _ v2 (copy_steps-Copied env alone x.id steps v2)
                (λ u v3 h3. finish x steps v2 v3.db h2 s h3))))

-- Whatever fails and whatever others do before it, and as long as no other client commits between
-- its statements: the duplication of a workflow writes all or nothing. If it throws, the tables
-- are those that it began on. If it returns, it has added the new workflow row and, in the order of
-- the steps of the source, one copy of each of them, active or not, that differs in its id and its
-- workflow alone; all else in the tables is as it was.
pub duplicate-AllOrNothing :
    (env : Env) (source_id : String) (n : NewWorkflow) (w : World)
    → IsSerial env
    → AllOrNothing
        (IsDuplicated source_id n (await env w).db)
        (await env w).db
        (duplicate env source_id n w)
unfolding duplicate
duplicate-AllOrNothing env source_id n w alone =
    transaction-AllOrNothing env alone _ _ w (body-IsDuplicated env alone source_id n (await env w))
