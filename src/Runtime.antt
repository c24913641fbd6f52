-- ===== src/Runtime.antt =====
-- How an `async` function of the services runs: it returns or throws, and between two of its
-- awaited queries other requests, jobs and recoveries may change the database.
pub mod Keeps
pub mod Quiet
pub mod Silent
pub mod Ends
pub mod Insert
pub mod Atomic
pub mod Both
use gov_flow.Prelude.{
  ◌+◌, ◌-◌, zero, ℕ, zero, suc, String, Bool, true, false, List, [], ◌∷◌, ◌++◌, Option, none, some,
  ◌≡◌, refl, is_empty, if◌then◌else◌,
}
use gov_flow.Js.Value.{Value, Number}
use gov_flow.Errors.{Error, FieldError, app_error_with}
use gov_flow.Database.{Db}

pub data Result (A : Type 0) : Type 0 where
  ok : A → Result A
  err : Error → Result A

-- A request to the REST API of Jira.
pub data JiraRequest : Type 0 where
  get_myself : JiraRequest
  get_comments : (issue_key : String) → (max_results start_at : ℕ) → JiraRequest
  post_comment : (issue_key : String) → (body : Value) → JiraRequest
  post_transition : (issue_key : String) → (transition_id : String) → JiraRequest

-- A call of the job queue, with the id of the job.
pub data QueueCall : Type 0 where
  add_job : (job_id : String) → QueueCall
  get_job : (job_id : String) → QueueCall
  get_state : (job_id : String) → QueueCall
  retry_job : (job_id : String) → QueueCall
  remove_job : (job_id : String) → QueueCall
  get_jobs : (state : String) → (first last : ℕ) → QueueCall
  get_counts : (states : List String) → QueueCall

-- What axios rejects with. `response` is `none` where no response came.
pub record HttpFailure : Type 0 where
  pub message : String
  pub code : Option String
  pub response : Option (ℕ × Value)

pub data JiraReply : Type 0 where
  answered : Value → JiraReply
  rejected : HttpFailure → JiraReply

-- `env.jira` of src/config/env.js, and whether the client module loaded.
pub record JiraSettings : Type 0 where
  pub client : Bool
  pub enabled : Bool
  pub base_url : String
  pub email : String
  pub api_token : String

-- What the program does not decide: the n-th await meets the changes that others made since the
-- last one, a time, a random UUID for each row that it inserts, and maybe a failure of the database;
-- the n-th call of Jira meets a reply.
pub record Env : Type 0 where
  pub others : ℕ → Db → Db
  -- What others commit before the n-th await, if that is a statement within a transaction
  pub meanwhile : ℕ → Db → Db
  -- The order in which the n-th query finds the rows of the tables: PostgreSQL promises none, so
  -- that rows with the same creation time may change places from one query to the next.
  pub scan : ℕ → Db → Db
  pub now : ℕ → ℕ
  pub outage : ℕ → Option Error
  pub uuid : ℕ → ℕ → String
  pub jira : ℕ → JiraRequest → JiraReply
  pub jira_settings : JiraSettings
  pub running_timeout_minutes : ℕ
  -- `String(value)` for a value that is not a text
  pub to_text : Value → String
  -- `Number(text)` for a text that is no run of decimal digits
  pub parse_number : String → Number
  -- `a * b` where a factor is no whole number
  pub product : Number → Number → Number
  -- `new Date(time).toISOString()`
  pub to_iso_string : ℕ → String

pub record World : Type 0 where
  pub db : Db
  pub ticks : ℕ
  pub jira_calls : List JiraRequest
  pub queue_calls : List QueueCall

abbrev pub M : Type 0 → Type 0
M A = World → Result A × World

unfoldable pub pure : {A : Type 0} → A → M A
pure a w = (ok a, w)

unfoldable pub throw : {A : Type 0} → Error → M A
throw e w = (err e, w)

abbrev pub continue : {A B : Type 0} → Result A → (A → M B) → M B
continue (ok a) f w = f a w
continue (err e) f w = (err e, w)

infixl 5 ◌>>=◌ ◌>>◌
unfoldable pub ◌>>=◌ : {A B : Type 0} → M A → (A → M B) → M B
unfolding pure throw
◌>>=◌ m f w = continue (m w).0 f (m w).1

abbrev pub ◌>>◌ : {A B : Type 0} → M A → M B → M B
m >> k = m >>= λ _. k

abbrev pub recover : {A : Type 0} → Result A → (Error → M A) → M A
recover (ok a) handler w = (ok a, w)
recover (err e) handler w = handler e w

-- `try { m } catch (error) { handler }`
unfoldable pub try : {A : Type 0} → M A → (Error → M A) → M A
try m handler w = recover (m w).0 handler (m w).1

-- `if (!test) throw error`
unfoldable pub require : Bool → Error → M (Unit {0})
unfolding pure throw
require true e = pure tt
require false e = throw e

-- `if (!row) throw error`, with the row handed on
unfoldable pub require_some : {A : Type 0} → Option A → Error → M A
unfolding pure throw
require_some (some a) e = pure a
require_some none e = throw e

-- `if (errors.length > 0) throw new AppError(message, 400, errors)`
unfoldable pub require_valid : String → List FieldError → M (Unit {0})
unfolding require
require_valid message errors = require (is_empty errors) (app_error_with message 400 errors)

module _ (env : Env) where
  -- An await: the others get their turn.
  unfoldable pub await : World → World
  await w = record w { db = env.others w.ticks w.db; ticks = suc w.ticks }

  abbrev pub settle : {A : Type 0} → Result (A × Db) → M A
  settle (ok (a, d)) w = (ok a, record w { db = d })
  settle (err e) w = (err e, w)

  -- `await database.query(…)`: a statement that fails changes nothing.
  unfoldable pub query : {A : Type 0} → (ℕ → Db → Result (A × Db)) → M A
  unfolding await
  query op w = elim (env.outage w.ticks) [
    | some e ↦ (err e, await w)
    | none ↦ settle (op (env.now w.ticks) (await w).db) (await w)
  ]

  -- `new Date()`
  unfoldable pub clock : M ℕ
  clock w = (ok (env.now w.ticks), w)

  -- The ids that a statement gives the rows that it inserts
  unfoldable pub new_ids : M (ℕ → String)
  new_ids w = (ok (env.uuid w.ticks), w)

  -- `await axios.…` against Jira
  unfoldable pub call_jira : JiraRequest → M JiraReply
  call_jira r w = (
    ok (env.jira w.ticks r),
    record w { ticks = suc w.ticks; jira_calls = w.jira_calls ++ r ∷ [] },
  )

  -- What other clients have committed during a number of statements, on the committed tables
  unfoldable pub outside : (start count : ℕ) → Db → Db
  outside start zero d = d
  outside start (suc n) d = env.meanwhile (start + n) (outside start n d)

  abbrev pub close : {A : Type 0} → World → Result A × World → Result A × World
  close before (ok a, w) = (ok a, w)
  close before (err e, w) =
      (err e, record w { db = outside before.ticks (w.ticks - before.ticks) before.db })

  -- `database.transaction(callback)`: BEGIN, the statements, and COMMIT or ROLLBACK. A rollback
  -- takes the writes of the transaction back, and leaves what others have committed meanwhile.
  unfoldable pub transaction : {A : Type 0} → M A → M A
  unfolding await outside
  transaction body w = close (await w) (body (await w))

  -- Between two statements of a transaction other clients may commit: PostgreSQL runs it under READ
  -- COMMITTED, where each statement sees what is committed when it starts.
  abbrev pub between : World → World
  between w = record w { db = env.meanwhile w.ticks w.db; ticks = suc w.ticks }

  -- `await trx.query(…)`
  unfoldable pub statement : {A : Type 0} → (ℕ → Db → Result (A × Db)) → M A
  statement op w = elim (env.outage w.ticks) [
    | some e ↦ (err e, between w)
    | none ↦ settle (op (env.now w.ticks) (between w).db) (between w)
  ]
