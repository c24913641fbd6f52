-- ===== src/Workflows/Service/Readback.antt =====
-- The steps of a duplicated workflow, read back.
use gov_flow.Prelude.{
  ℕ, String, Bool, true, false, not, ◌≡◌, refl, sym, ◌∙◌, ap, subst, List, [], ◌∷◌, ◌++◌, some,
  is_some, All, select, arith, eq_iff, eq_refl, inl, inr, Bool-cases,
}
use gov_flow.Js.Text.{to_lower_case}
use gov_flow.Js.Lower.{to_lower_case_lower}
use gov_flow.Database.{Db, Workflow, WorkflowStep}
use gov_flow.Database.Table.{lookup}
use gov_flow.Database.Sorting.{IsSorted, sort_by-IsSorted, sort_by_sorted}
use gov_flow.Executions.Repository.{sort_by, workflow_key}
use gov_flow.Runtime.{Env, World, Result, ok, err, await}
use gov_flow.Runtime.Ends.{IsSerial, Ends}
use gov_flow.Runtime.Insert.{is_new, refers}
use gov_flow.Runtime.Atomic.{AllOrNothing}
use gov_flow.Workflows.Repository.{NewWorkflow}
use gov_flow.Workflows.StepRepository.{step_of, earlier_step}
use gov_flow.Workflows.Service.{duplicate}
use gov_flow.Workflows.Service.Copy.{steps_of, AreCopies, IsDuplicated, duplicate-AllOrNothing}

-- Every step belongs to a workflow of the table (the foreign key of workflow_steps).
abbrev pub HaveParents : Db → Type 0
HaveParents d =
    All (λ (s : WorkflowStep). refers workflow_key (some s.workflow_id) d.workflows ≡ true)
      d.workflow_steps

place : WorkflowStep → ℕ
place s = s.step_order

select-append :
    {A : Type 0} (p : A → Bool) (xs ys : List A) → select p (xs ++ ys) ≡ select p xs ++ select p ys
select-append p [] ys = refl
select-append p (x ∷ xs) ys = elim (Bool-cases (p x)) [
  | inl e ↦ rw e (ap (λ (l : List _). x ∷ l) (select-append p xs ys))
  | inr e ↦ rw e (select-append p xs ys)
]

module _ (id : String) where
  stranger :
      (d : Db) (s : WorkflowStep)
      → is_new workflow_key id d.workflows ≡ true
      → refers workflow_key (some s.workflow_id) d.workflows ≡ true
      → step_of id s ≡ false
  stranger d s fresh parent = elim (Bool-cases (step_of id s)) [
    | inr e ↦ e
    | inl e ↦
        absurd
          (clash (rw (← (eq_iff (to_lower_case s.workflow_id) (to_lower_case id)).0 e) at fresh))
  ]
    where
      clash :
          not (is_some (lookup workflow_key (to_lower_case s.workflow_id) d.workflows)) ≡ true → ⊥
      clash f = let g = rw parent at f in cc

  none_before :
      (d : Db) (rows : List WorkflowStep)
      → is_new workflow_key id d.workflows ≡ true
      → All (λ (s : WorkflowStep). refers workflow_key (some s.workflow_id) d.workflows ≡ true) rows
      → select (step_of id) rows ≡ []
  none_before d [] fresh h = refl
  none_before d (s ∷ rest) fresh (p, h) = rw (stranger d s fresh p) (none_before d rest fresh h)

  all_copies : (ss ts : List WorkflowStep) → AreCopies id ss ts → select (step_of id) ts ≡ ts
  all_copies [] [] h = refl
  all_copies [] (t ∷ ts) h = absurd h
  all_copies (s ∷ ss) [] h = absurd h
  all_copies (s ∷ ss) (t ∷ ts) ((i, e), h) =
      rw (mine t e) (ap (λ (l : List WorkflowStep). t ∷ l) (all_copies ss ts h))
    where
      mine :
          (t : WorkflowStep)
          → t ≡ record s { id = i; workflow_id = to_lower_case id }
          → step_of id t ≡ true
      mine t e = rw e (rw (to_lower_case_lower id) (eq_refl (to_lower_case id)))

  IsSorted-copies :
      (ss ts : List WorkflowStep) → AreCopies id ss ts → IsSorted place ss → IsSorted place ts
  unfolding place
  IsSorted-copies [] [] h k = tt
  IsSorted-copies [] (t ∷ ts) h k = absurd h
  IsSorted-copies (s ∷ ss) [] h k = absurd h
  IsSorted-copies (s ∷ []) (t ∷ []) h k = tt
  IsSorted-copies (s ∷ []) (t ∷ t2 ∷ ts) h k = absurd h.1
  IsSorted-copies (s ∷ s2 ∷ ss) (t ∷ []) h k = absurd h.1
  IsSorted-copies (s ∷ s2 ∷ ss) (t ∷ t2 ∷ ts) ((i, e), ((j, f), h)) (p, k) =
      (rw (e, f) p, IsSorted-copies (s2 ∷ ss) (t2 ∷ ts) ((j, f), h) k)

steps_of-IsDuplicated :
    (source_id : String) (n : NewWorkflow) (before : Db) (x : Workflow) (d : Db)
    → HaveParents before
    → IsDuplicated source_id n before x d
    → AreCopies x.id (steps_of source_id before) (steps_of x.id d)
unfolding steps_of place
steps_of-IsDuplicated source_id n before x d parents c =
    subst (AreCopies x.id (steps_of source_id before)) (sym read) c.copied
  where
    fresh : is_new workflow_key x.id before.workflows ≡ true
    fresh = ap (λ (y : Workflow). is_new workflow_key y.id before.workflows) c.row ∙ c.fresh

    read : sort_by earlier_step (select (step_of x.id) d.workflow_steps) ≡ c.copies
    read =
        ap (λ (e : Db). sort_by earlier_step (select (step_of x.id) e.workflow_steps)) c.tables
        ∙ ap (sort_by earlier_step) (
            select-append (step_of x.id) before.workflow_steps c.copies
            ∙ ap (λ (l : List WorkflowStep). l ++ select (step_of x.id) c.copies)
                (none_before x.id before before.workflow_steps fresh parents)
            ∙ all_copies x.id (steps_of source_id before) c.copies c.copied)
        ∙ sort_by_sorted place c.copies (
            IsSorted-copies x.id (steps_of source_id before) c.copies c.copied
              (sort_by-IsSorted place (select (step_of source_id) before.workflow_steps)))

-- Whatever fails and whatever others do before it, as long as no other client commits between the
-- statements of the duplication, and where every step of the tables belongs to a workflow of them:
-- if a duplication returns, then reading the steps of the new workflow gives the steps of the
-- source, one for one and in the same order, each with all its columns but the id and the workflow.
pub steps_of-duplicate :
    (env : Env) (source_id : String) (n : NewWorkflow) (w : World)
    → IsSerial env
    → HaveParents (await env w).db
    → Ends
        (λ x v. AreCopies x.id (steps_of source_id (await env w).db) (steps_of x.id v.db))
        (duplicate env source_id n w)
steps_of-duplicate env source_id n w alone parents =
    returned (duplicate env source_id n w).0 (duplicate env source_id n w).1
      (duplicate-AllOrNothing env source_id n w alone)
  where
    same : (x y : Workflow) → ◌≡◌ {A = Result Workflow} (ok x) (ok y) → y ≡ x
    same x y f = ground arith

    returned :
        (r : Result Workflow) (v : World)
        → AllOrNothing (IsDuplicated source_id n (await env w).db) (await env w).db (r, v)
        → Ends
            (λ x u. AreCopies x.id (steps_of source_id (await env w).db) (steps_of x.id u.db))
            (r, v)
    returned (err e) v h = tt
    returned (ok x) v (inl (e, f, g)) = cc
    returned (ok x) v (inr (y, f, c)) =
        steps_of-IsDuplicated source_id n (await env w).db x v.db parents (
          subst (λ (z : Workflow). IsDuplicated source_id n (await env w).db z v.db) (same x y f) c)
