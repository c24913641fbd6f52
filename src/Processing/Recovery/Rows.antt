-- ===== src/Processing/Recovery/Rows.antt =====
-- What one recovery leaves in the tables: all of its writes or none.
use gov_flow.Prelude.{ℕ, ◌-◌, String, false, ◌≡◌, some, All, ◌⊎◌}
use gov_flow.Js.Value.{Value}
use gov_flow.Errors.{Error}
use gov_flow.Database.{Db, Execution, ExecutionStep, failed}
use gov_flow.Executions.Repository.{find_execution}
use gov_flow.Executions.StepRepository.{is_running_of}
use gov_flow.Runtime.{outside, Env, World, Result, ok, err}
use gov_flow.Runtime.Ends.{Ends}
use gov_flow.Processing.Recovery.Told.{told}
use gov_flow.Processing.Recovery.{Recovery}

-- No step of the execution is RUNNING.
abbrev pub IsSettled : String → Db → Type 0
IsSettled id d = All (λ (s : ExecutionStep). is_running_of id s ≡ false) d.execution_steps

-- What other clients commit between the statements of a transaction lets no step of the execution
-- become RUNNING, if none was.
abbrev pub KeepsSettled : Env → String → Type 0
KeepsSettled env id = (n : ℕ) (d : Db) → IsSettled id d → IsSettled id (env.meanwhile n d)

-- What a recovery that went through has written.
pub record IsRecovered (env : Env) (by : Value) (timeout : ℕ) (x : Execution) (r : Recovery)
    (d : Db) : Type 0 where
  pub found : find_execution x.id d ≡ some r.execution
  pub status : r.execution.status ≡ failed
  pub time : ℕ
  pub result_kept : r.execution.result ≡ told env by timeout x time r.steps
  pub settled : IsSettled x.id d

-- Both ends of a recovery that began in the world `before`: an error, and no change but what other
-- clients have committed since, or a recovered execution.
abbrev pub IsAtomic : Env → Value → ℕ → Execution → World → Result Recovery × World → Type 0
IsAtomic env by timeout x before r =
    ((e : Error) × (r.0 ≡ err e)
      × (r.1.db ≡ outside env before.ticks (r.1.ticks - before.ticks) before.db))
    ⊎ ((a : Recovery) × (r.0 ≡ ok a) × IsRecovered env by timeout x a r.1.db)
