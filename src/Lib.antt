-- ===== src/Lib.antt =====
-- GovFlow runs approval workflows: an execution of a workflow goes through its steps, of which some
-- write to Jira. A request creates an execution with its steps and puts a job on a queue; a worker
-- takes the job and runs the processor, the processor runs a handler per step, and a recovery
-- finalizes executions whose worker died. Around them stand the administration of workflows, users
-- and departments, and the login. All of them share PostgreSQL tables, and every write that must not
-- happen twice is a guarded UPDATE.
--
-- Files and sources:
--   Prelude, Prelude/*       shared names, Boolean tests and lists
--   Js, Js/*                 JavaScript strings, numbers and JSON values
--   Config, Config/*         src/config/env.js
--   Errors, Errors/*         src/errors/AppError.js, src/modules/jira/jira.errors.js,
--                            src/utils/apiResponse.js, src/middlewares/error.middleware.js and
--                            not-found.middleware.js
--   Database, Database/*     rows and tables of src/database/migrations, guarded updates, sorting
--   Validators, Validators/* src/validators
--   Runtime, Runtime/*       src/config/database.js: queries, transactions, INSERT with the
--                            constraints of a table, calls of Jira
--   Executions, Executions/* src/modules/workflow-executions and
--                            src/modules/workflow-execution-steps: repositories and services
--   AuditLogs, AuditLogs/*   src/modules/audit-logs, src/utils/safeAuditLog.js
--   Jira, Jira/*             src/modules/jira
--   Processing, Processing/* src/modules/workflow-processing (processor, handlers, recovery) and
--                            src/workers/workflowProcessing.worker.js
--   Access, Access/*         workflowExecutionAccess.js, workflowsAccess.js, role.middleware.js
--   Paging, Paging/*         the pagination that the list services share
--   Workflows, Workflows/*   src/modules/workflows, src/modules/workflow-steps
--   Users, Users/*           src/modules/users, departments and auth, src/utils/jwt.js and
--                            password.js, src/middlewares/auth.middleware.js
--   Queue, Queue/*           src/queues, src/modules/admin, and workflowProcessingQueue.service.js
--                            and workflowProcessingJob.service.js of src/modules/workflow-processing
--   Examples, Examples/*     a small world and the theorems at concrete inputs
--
-- State and effects. A run is a function from a World (the tables, a counter of awaits, the calls
-- of Jira and of the queue so far) to a result, a value or a thrown error, and a World. An Env holds
-- what the code does not decide: at every await the other actors may rewrite the tables (`others`),
-- and so they may before each statement of a transaction (`meanwhile`), the clock shows a time
-- (`now`), a query finds the rows of a table in some order (`scan`), a statement may fail
-- (`outage`), and Jira answers or rejects (`jira`). `IsQuiet` says that nobody else commits anything,
-- also not between the statements of a transaction, and that no statement fails; `IsSerial` says of
-- this only that nobody commits between the statements of a transaction; theorems that need one of
-- them say so. camelCase names of the source are snake_case here.
--
-- Libraries are parameters. A `Platform` gives bcrypt, the signing and reading of a JWT and the case
-- mapping of strings; `IsBcrypt` states that a hash matches the password that it is made of. A
-- `QueueService` gives the reply of BullMQ to each call, by the number of the await, so that it may
-- answer the same question differently later. A `Dates` gives what JavaScript and PostgreSQL read as
-- a time.
--
-- Handlers are cut where the source branches: `processWorkflowExecution` is
-- `process_workflow_execution`, whose loop is `process_steps`, whose body is `process_step`. Every
-- loop is structural recursion on its list; the lookup of comments recurses on the three pages that
-- COMMENT_LOOKUP_MAX_PAGES allows, and the digits of a number on the number itself.
--
-- Assumptions. Strings are sequences of Unicode scalar values (no lone surrogates), and their
-- length counts UTF-16 units. A Number is an integer or one of a few classes of other numbers. The
-- database finds a UUID regardless of the case of its digits, writes it in lower case, and keys are
-- unique: a key that the database makes is a fresh one. An INSERT checks the range of an INTEGER and,
-- for users and audit logs, the length of each VARCHAR; then its keys, then its foreign keys. The
-- validators bound the other texts before they are written. The actor of an audit log is a UUID. A
-- transaction runs under READ COMMITTED: each of its statements sees what others have committed by
-- then; its rollback takes back its own writes and leaves those of others, and a failing COMMIT is a
-- rollback. The running timeout and Jira's totals are whole numbers. Columns that no modelled
-- operation reads are left out.
--
-- Not modelled: Express routes and controllers, which pass the parts of a request to a service; the
-- construction of the queue and its retry options; log lines; the HTTP client below a request and
-- its reply; rate limiting, the connections of Redis, health probes and scripts.
pub mod Prelude
pub mod Js
pub mod Errors
pub mod Database
pub mod Validators
pub mod Runtime
pub mod Executions
pub mod AuditLogs
pub mod Jira
pub mod Processing
mod Examples
pub mod Access
pub mod Workflows
pub mod Paging
pub mod Users
pub mod Queue
pub mod Config
