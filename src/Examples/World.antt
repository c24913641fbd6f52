-- ===== src/Examples/World.antt =====
-- One workflow of two steps, a manual one and a Jira comment, and one execution of it.
use gov_flow.Prelude.{refl, ◌+◌, ◌*◌, ℕ, String, true, [], ◌∷◌, Option, none, some}
use gov_flow.Js.Value.{Value, null, str, obj, object, not_a_number}
use gov_flow.Js.Text.{decimal}
use gov_flow.Database.{
  Db, WorkflowStep, Execution, ExecutionStep, ExecutionStatus, StepStatus, pending,
}
use gov_flow.Runtime.Quiet.{IsQuiet}
use gov_flow.Runtime.Ends.{IsSerial}
use gov_flow.Runtime.{Env, World, JiraSettings, answered}

abbrev pub execution_id : String
execution_id = "0a0a0a0a-0a0a-4a0a-8a0a-0a0a0a0a0a0a"

abbrev pub admin_id : String
admin_id = "0b0b0b0b-0b0b-4b0b-8b0b-0b0b0b0b0b0b"

abbrev pub comment_configuration : Value
comment_configuration = obj (object (("issueKey", str "GOV-7") ∷ ("comment", str "Approved") ∷ []))

abbrev pub manual_template : WorkflowStep
manual_template = record {
  id = "t1";
  workflow_id = "w1";
  name = "Review";
  description = none;
  step_order = 1;
  action_type = "MANUAL";
  configuration = null;
  is_active = true;
}

abbrev pub comment_template : WorkflowStep
comment_template = record manual_template {
  id = "t2";
  name = "Tell Jira";
  step_order = 2;
  action_type = "JIRA_COMMENT";
  configuration = comment_configuration;
}

abbrev pub step_row : String → String → StepStatus → ExecutionStep
step_row id template status = record {
  id = id;
  execution_id = execution_id;
  step_id = template;
  status = status;
  started_at = none;
  completed_at = none;
  error_message = none;
  output = null;
  updated_at = 0;
}

abbrev pub execution_row : ExecutionStatus → Option ℕ → Execution
execution_row status started_at = record {
  id = execution_id;
  workflow_id = "w1";
  started_by = some admin_id;
  status = status;
  input = null;
  result = null;
  started_at = started_at;
  completed_at = none;
  created_at = 0;
  updated_at = 0;
}

abbrev pub db_with : Execution → StepStatus → StepStatus → Db
db_with x first second = record {
  departments = [];
  users = [];
  workflows =
      record {
        id = "w1";
        name = "Permit";
        description = none;
        department_id = some "d1";
        created_by = some admin_id;
        is_active = true;
        created_at = 0;
      }
      ∷ [];
  workflow_steps = comment_template ∷ manual_template ∷ [];
  executions = x ∷ [];
  execution_steps = step_row "s2" "t2" second ∷ step_row "s1" "t1" first ∷ [];
  audit_logs = [];
}

abbrev pub ready_settings : JiraSettings
ready_settings = record {
  client = true;
  enabled = true;
  base_url = "https://jira.example";
  email = "bot@gov.example";
  api_token = "token";
}

-- Nobody else touches the database, no query fails, and Jira accepts every comment.
abbrev pub quiet : Env
quiet = record {
  others = λ n d. d;
  meanwhile = λ n d. d;
  scan = λ n d. d;
  now = λ n. 1000;
  outage = λ n. none;
  uuid = λ n k. decimal (n * 1000 + k);
  parse_number = λ s. not_a_number;
  product = λ a b. not_a_number;
  jira = λ n r. answered (obj (object (("id", str "10001") ∷ [])));
  jira_settings = ready_settings;
  running_timeout_minutes = 30;
  to_text = λ v. "";
  to_iso_string = λ n. "1970-01-01T00:00:01.000Z";
}

pub quiet-IsQuiet : IsQuiet quiet
quiet-IsQuiet = record { alone = λ n d. refl; serial = λ n d. refl; healthy = λ n. refl }

pub quiet-IsSerial : IsSerial quiet
quiet-IsSerial = record { serial = λ n d. refl }

abbrev pub world_of : Db → World
world_of d = record { db = d; ticks = 0; jira_calls = []; queue_calls = [] }

abbrev pub pending_world : World
pending_world = world_of (db_with (execution_row pending none) pending pending)
