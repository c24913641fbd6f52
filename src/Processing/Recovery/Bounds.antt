-- ===== src/Processing/Recovery/Bounds.antt =====
-- How many executions one recovery takes on.
use gov_flow.Prelude.{ℕ, ◌≤◌, ◌≡◌, List, length}
use gov_flow.Js.Value.{Value}
use gov_flow.Runtime.{Env, World}
use gov_flow.Runtime.Ends.{Ends}
use gov_flow.Processing.Recovery.{Recovery, RecoveredExecution, RecoverySummary}

module _ (env : Env) (by : Value) (timeout : ℕ) where
  abbrev AtMost : ℕ → List RecoveredExecution → World → Type 0
  AtMost n rs w = length rs ≤ n

-- What a recovery reports back.
pub record IsBounded (s : RecoverySummary) : Type 0 where
  pub at_most_100 : s.scanned_count ≤ 100
  pub counted : s.recovered_count ≡ length s.recovered_executions
  pub recovered_scanned : s.recovered_count ≤ s.scanned_count
