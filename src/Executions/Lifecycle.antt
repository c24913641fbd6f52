-- ===== src/Executions/Lifecycle.antt =====
-- The life of an execution as a relation between its row at two times, and the relation between
-- two databases that each statement of the repositories respects.
pub mod Statements
use gov_flow.Prelude.{
  ℕ, ◌≤◌, ◌≡◌, refl, sym, ◌∙◌, String, Bool, true, false, List, Option, none, some, arith, is_some,
  ap, Option-cases, inl, inr, Bool-cases, ◌==◌, if◌then◌else◌,
}
use mathlib.Core.Option
use gov_flow.Database.{
  Db, Execution, ExecutionStatus, pending, running, completed, failed, canceled, is_pending,
}
use gov_flow.Database.Table.{lookup, guarded, update, lookup-update}
use gov_flow.Executions.Repository.{execution_key}

abbrev pub rank : ExecutionStatus → ℕ
rank pending = 0
rank running = 1
rank s = 2

abbrev pub is_terminal : ExecutionStatus → Bool
is_terminal pending = false
is_terminal running = false
is_terminal s = true

-- What may become of a row: it keeps what it is about, its status never goes back, a terminal row
-- is never touched again, its start is set once and for all, and it has one as soon as it has
-- left PENDING.
pub record Advances (x y : Execution) : Type 0 where
  pub same_id : y.id ≡ x.id
  pub same_workflow : y.workflow_id ≡ x.workflow_id
  pub same_starter : y.started_by ≡ x.started_by
  pub same_input : y.input ≡ x.input
  pub forward : rank x.status ≤ rank y.status
  pub final : is_terminal x.status ≡ true → y ≡ x
  pub start_kept : (t : ℕ) → x.started_at ≡ some t → y.started_at ≡ some t
  pub start_set :
      is_pending x.status ≡ true → is_pending y.status ≡ false → is_some y.started_at ≡ true

pub Advances-refl : (x : Execution) → Advances x x
Advances-refl x = record {
  same_id = refl;
  same_workflow = refl;
  same_starter = refl;
  same_input = refl;
  forward = omega arith;
  final = λ h. refl;
  start_kept = λ t h. h;
  start_set = λ p q. ground arith;
}

start_of_some :
    (o p : Option ℕ) → ((t : ℕ) → o ≡ some t → p ≡ some t) → is_some o ≡ true → is_some p ≡ true
start_of_some none p k h = absurd (ground arith)
start_of_some (some t) p k h = rw (k t refl) refl

pub Advances-trans : (x y z : Execution) → Advances x y → Advances y z → Advances x z
Advances-trans x y z a b = record {
  same_id = b.same_id ∙ a.same_id;
  same_workflow = b.same_workflow ∙ a.same_workflow;
  same_starter = b.same_starter ∙ a.same_starter;
  same_input = b.same_input ∙ a.same_input;
  forward = omega (arith, a.forward, b.forward);
  final = λ h. b.final (ap (λ (e : Execution). is_terminal e.status) (a.final h) ∙ h) ∙ a.final h;
  start_kept = λ t h. b.start_kept t (a.start_kept t h);
  start_set = λ p q. elim (Bool-cases (is_pending y.status)) [
    | inl e ↦ b.start_set e q
    | inr e ↦ start_of_some y.started_at z.started_at b.start_kept (a.start_set p e)
  ];
}

-- What becomes of the row under a key: it stays and advances; a row may be new.
abbrev pub Fate : Option Execution → Option Execution → Type 0
Fate none y = Unit
Fate (some x) none = ⊥
Fate (some x) (some y) = Advances x y

pub Fate-refl : (o : Option Execution) → Fate o o
Fate-refl none = tt
Fate-refl (some x) = Advances-refl x

pub Fate-trans : (o p q : Option Execution) → Fate o p → Fate p q → Fate o q
Fate-trans none p q h k = tt
Fate-trans (some x) none q h k = absurd h
Fate-trans (some x) (some y) none h k = absurd k
Fate-trans (some x) (some y) (some z) h k = Advances-trans x y z h k

-- Every execution of the one database is in the other, and has advanced.
abbrev pub Evolves : Db → Db → Type 0
Evolves d e =
    (k : String) → Fate (lookup execution_key k d.executions) (lookup execution_key k e.executions)

pub Evolves-refl : (d : Db) → Evolves d d
Evolves-refl d k = Fate-refl _

pub Evolves-trans : (a b c : Db) → Evolves a b → Evolves b c → Evolves a c
Evolves-trans a b c h k j = Fate-trans _ _ _ (h j) (k j)

pub Evolves-of_eq : (d e : Db) → e.executions ≡ d.executions → Evolves d e
Evolves-of_eq d e p k = rw p (Fate-refl _)

module _ (guard : Execution → Bool) (set : Execution → Execution) where
  Fate-map :
      (o : Option Execution)
      → ((x : Execution) → guard x ≡ true → Advances x (set x))
      → Fate o (Option.map (guarded execution_key guard set) o)
  Fate-map none adv = tt
  Fate-map (some x) adv = elim (Bool-cases (guard x)) [
    | inl e ↦ rw e (adv x e)
    | inr e ↦ rw e (Advances-refl x)
  ]

  -- An update by key under which the row advances.
  pub update-Fate :
      (id k : String) (rows : List Execution)
      → ((x : Execution) → execution_key (set x) ≡ execution_key x)
      → ((x : Execution) → guard x ≡ true → Advances x (set x))
      → Fate
          (lookup execution_key k rows)
          (lookup execution_key k (update execution_key id guard set rows))
  update-Fate id k rows same adv =
      rw (lookup-update execution_key guard set same id k rows) (elim (Bool-cases (id == k)) [
        | inl e ↦ rw e (Fate-map (lookup execution_key k rows) adv)
        | inr e ↦ rw e (Fate-refl _)
      ])
