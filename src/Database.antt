-- ===== src/Database.antt =====
-- The tables of src/database/migrations that the workflow modules read and write. A row's `id` is a
-- primary key, a UUID in lower case; times are numbers.
pub mod Table
pub mod Sorting
use gov_flow.Prelude.{ℕ, Bool, true, false, String, List, Option}
use gov_flow.Js.Value.{Value}

pub data ExecutionStatus : Type 0 where
  pending running completed failed canceled : ExecutionStatus

pub data StepStatus : Type 0 where
  pending running completed failed skipped : StepStatus

-- The roles that the CHECK on `users.role` admits.
pub data Role : Type 0 where
  admin manager operator : Role

pub record Department : Type 0 where
  pub id : String
  pub name : String
  pub description : Option String
  pub is_active : Bool

pub record User : Type 0 where
  pub id : String
  pub name : String
  pub email : String
  pub password_hash : String
  pub role : Role
  pub department_id : Option String
  pub is_active : Bool
  pub created_at : ℕ

pub record Workflow : Type 0 where
  pub id : String
  pub name : String
  pub description : Option String
  pub department_id : Option String
  pub created_by : Option String
  pub is_active : Bool
  pub created_at : ℕ

pub record WorkflowStep : Type 0 where
  pub id : String
  pub workflow_id : String
  pub name : String
  pub description : Option String
  pub step_order : ℕ
  pub action_type : String
  pub configuration : Value
  pub is_active : Bool

pub record Execution : Type 0 where
  pub id : String
  pub workflow_id : String
  pub started_by : Option String
  pub status : ExecutionStatus
  pub input : Value
  pub result : Value
  pub started_at : Option ℕ
  pub completed_at : Option ℕ
  pub created_at : ℕ
  pub updated_at : ℕ

pub record ExecutionStep : Type 0 where
  pub id : String
  pub execution_id : String
  pub step_id : String
  pub status : StepStatus
  pub started_at : Option ℕ
  pub completed_at : Option ℕ
  pub error_message : Option String
  pub output : Value
  pub updated_at : ℕ

pub record AuditEntry : Type 0 where
  pub action : String
  pub entity : String
  pub entity_id : Value
  pub actor_id : Value
  pub metadata : Value

-- A row of audit_logs: the entry, and when the database wrote it.
pub record AuditLog : Type 0 where
  pub entry : AuditEntry
  pub open entry use *
  pub created_at : ℕ

pub record Db : Type 0 where
  pub departments : List Department
  pub users : List User
  pub workflows : List Workflow
  pub workflow_steps : List WorkflowStep
  pub executions : List Execution
  pub execution_steps : List ExecutionStep
  pub audit_logs : List AuditLog

abbrev pub status_text : ExecutionStatus → String
status_text pending = "PENDING"
status_text running = "RUNNING"
status_text completed = "COMPLETED"
status_text failed = "FAILED"
status_text canceled = "CANCELED"

abbrev pub step_status_text : StepStatus → String
step_status_text pending = "PENDING"
step_status_text running = "RUNNING"
step_status_text completed = "COMPLETED"
step_status_text failed = "FAILED"
step_status_text skipped = "SKIPPED"

abbrev pub role_text : Role → String
role_text admin = "ADMIN"
role_text manager = "MANAGER"
role_text operator = "OPERATOR"

-- `status = 'PENDING'` and the like, on an execution
abbrev pub is_pending : ExecutionStatus → Bool
is_pending pending = true
is_pending s = false

abbrev pub is_running : ExecutionStatus → Bool
is_running running = true
is_running s = false

abbrev pub is_step_pending : StepStatus → Bool
is_step_pending pending = true
is_step_pending s = false

abbrev pub is_step_running : StepStatus → Bool
is_step_running running = true
is_step_running s = false
