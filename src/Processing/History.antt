-- ===== src/Processing/History.antt =====
-- Jobs and recoveries in any order, each on what the ones before it left, beside whatever the
-- other actors do meanwhile.
use gov_flow.Prelude.{ℕ, Bool, List, [], ◌∷◌}
use gov_flow.Js.Value.{Value}
use gov_flow.Database.{Db}
use gov_flow.Executions.Lifecycle.{Evolves, Evolves-refl, Evolves-trans}
use gov_flow.Runtime.{Env, World}
use gov_flow.Runtime.Keeps.{IsRely}
use gov_flow.Processing.Worker.{JobData, run_job}
use gov_flow.Processing.Recovery.{recover_stale_running_executions}
use gov_flow.Processing.Processor.Evolution.{run_job-Keeps}
use gov_flow.Processing.Recovery.Evolution.{recovery-Keeps}

pub data Task : Type 0 where
  job : (production : Bool) → JobData → Task
  recovery : (recovered_by timeout_minutes limit : Value) → Task

unfoldable pub run_task : Env → Task → World → World
run_task env (job production data_of_job) w = (run_job env production data_of_job w).1
run_task env (recovery by timeout limit) w =
    (recover_stale_running_executions env by timeout limit w).1

-- The world that a list of tasks leaves.
unfoldable pub run_tasks : Env → List Task → World → World
unfolding run_task
run_tasks env [] w = w
run_tasks env (t ∷ ts) w = run_tasks env ts (run_task env t w)

-- The other actors, too, let the executions advance.
abbrev pub OthersEvolve : Env → Type 0
OthersEvolve env = (n : ℕ) (d : Db) → Evolves d (env.others n d) × Evolves d (env.meanwhile n d)

pub rely_of : (env : Env) → OthersEvolve env → IsRely env Evolves
rely_of env h = record {
  same = Evolves-refl;
  chain = Evolves-trans;
  others = λ n d. (h n d).0;
  meanwhile = λ n d. (h n d).1;
}

run_task-Evolves :
    (env : Env) → OthersEvolve env → (t : Task) (w : World) → Evolves w.db (run_task env t w).db
unfolding run_task
run_task-Evolves env h (job production j) w = (run_job-Keeps (rely_of env h) production j).at w
run_task-Evolves env h (recovery by timeout limit) w =
    (recovery-Keeps (rely_of env h) by timeout limit).at w

-- Whatever jobs and recoveries run, in whatever order and with whatever failures of the database and
-- replies of Jira, and however the other actors let the executions advance between their queries and
-- between the statements of their transactions: every execution is still there and has advanced. Its
-- identity, workflow, starter and input are the same, its status has not gone back from RUNNING to
-- PENDING or from a terminal status to any other, a row that was terminal is unchanged in every
-- column, a start time once set is kept, and a row that has left PENDING has one.
pub run_tasks-Evolves :
    (env : Env) (others : OthersEvolve env) (ts : List Task) (w : World)
    → Evolves w.db (run_tasks env ts w).db
unfolding run_tasks
run_tasks-Evolves env h [] w = Evolves-refl w.db
run_tasks-Evolves env h (t ∷ ts) w =
    Evolves-trans w.db (run_task env t w).db (run_tasks env ts (run_task env t w)).db
      (run_task-Evolves env h t w) (run_tasks-Evolves env h ts (run_task env t w))
