-- ===== src/Examples/Recovery.antt =====
-- The theorems on the recovery, at an execution that has been RUNNING for too long.
use gov_flow.Prelude.{some}
use gov_flow.Database.{Execution, running, completed}
use gov_flow.Runtime.{World}
use gov_flow.Examples.World.{world_of, db_with, execution_row}

abbrev stale_row : Execution
stale_row = execution_row running (some 0)

abbrev stale_world : World
stale_world = world_of (db_with stale_row completed running)
