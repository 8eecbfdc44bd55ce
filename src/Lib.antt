-- ===== src/Lib.antt =====
-- vici: an SMS platform that matches gig workers with jobs. A worker texts an earnings goal, a
-- poster texts a job; a webhook stores the message, a workflow classifies it, and a goal is
-- answered with the jobs that reach it.
--
-- The parts, and the files of the source that they model:
--
-- - Base: tests, lists, texts as lists of characters, integers, and the interface `Floats` for
--   Python's floats, with a concrete instance for the examples. `Floats` stands for the floats other
--   than NaN, infinity included, which `int(round(x))` refuses; `IsOrdered` says that their order is total and that a subtraction is monotone.
-- - Config: src/config.py, the settings, how they are read, and the check of the credentials at
--   start-up.
-- - Money, Datetimes: src/money.py and src/datetimes.py, the conversions at the boundary.
-- - Jobs, WorkGoals: src/jobs and src/work_goals, the rows, the pay of a job, the queries for
--   candidates, and the schemas through which rows are created.
-- - Store: the tables of src/*/models.py with their constraints, `_persist` of src/repository.py, and
--   sessions: an `Action` is a statement that may raise, and `transaction` takes the writes of a
--   raise back. All ids are drawn from one counter, of which the code relies on no more than that it
--   gives new ids. Instants are counted in microseconds.
-- - Sms: src/sms, the four gates of the webhook, the route, the responses and the repositories of
--   messages, rate limits and the audit log. `receive_sms` is the whole request.
-- - Extraction: src/extraction, the schemas, the retried call of the model with its counters, the
--   queue of vectors to be written, and the search.
-- - Matches: src/matches, the knapsack `_dp_select` with its table and its way back, the sort, the
--   retrieval of candidates, the matches' repository, `MatchService.match` and the reply's text.
-- - Pipeline: src/pipeline and src/sms/outbound.py, the three handlers and the orchestrator.
--   `World` is what a run changes: the database, the texts sent, the vectors written, the counters.
--   A closure given to `run_after_commit` is a `PostCommitAction` with the values that it captures.
-- - Temporal: src/temporal, the activities, the workflows and the cron registration. `Attempts` is
--   what Temporal may make of activities: whole runs, and runs cut before or after the commit. `Steps`
--   is the whole program: requests, attempts at the workflows started, sweeps and purges, each step
--   taken as a whole. `Ledger` is a machine of its own, which the program refines.
-- - Gauges: the gauges of src/main.py and src/temporal/stats.py, with the failures that they count.
-- - Migrations: migrations/versions, the statements of every revision on a schema of tables with their
--   columns, constraints and indexes, and the classes of src/*/models.py as tables. `Database` is the
--   interface to PostgreSQL, with the documented behaviour of the statements.
-- - Network: infra/components/network_policy.py, the policies of the five namespaces. `Cluster` is the
--   interface to Kubernetes, with the documented behaviour of policies; ranges of addresses are left
--   open.
-- - Deploy: the secrets of infra/components/secrets.py, the pods of app.py and migration.py beside it and
--   the image tag of infra/config.py, as far as settings and images depend on them. `Platform` is the
--   interface to what turns secrets into variables.
-- - Application: src/main.py, the probes and the configuration of the documentation.
-- - Samples and the modules Tests: small rows, and the theorems at concrete inputs.
--
-- Loops are recursion on their lists. The loops over table indices and over the attempts of a call
-- run on the number of rounds that are left, which the source's bounds give; none needs fuel.
-- Fallible statements return `ok` or `err` with the exception's kind.
--
-- Parameters, for what is not in the repository: PostgreSQL's statements on schemas, Kubernetes,
-- HMAC and Twilio's request validator, `urlsplit`, `fromisoformat`, `json.dumps` and
-- `model_dump_json`, the replies of OpenAI, what the vector index accepts and finds, whether Twilio
-- takes a text, whether the database takes an entry for the queue, whether Temporal takes a
-- workflow, and how `execute_activity` ends. The clock and the locks of concurrent sweeps are
-- parameters too.
--
-- Not modelled: logs, spans and histograms; waits between attempts; failures of the database, but
-- where it refuses an entry for the queue; the width of its integers, but for the amounts of jobs
-- and goals; the size of memory, which bounds the knapsack's table; NaN; transactions that overlap:
-- requests, attempts, sweeps and purges follow each other as wholes, and in Sms/Webhook/Limits by
-- single transactions; the engine and its pool (src/database.py); the wiring of the application
-- (src/main.py) but for the chain of handlers, the probes, the configuration of the docs and the
-- gauges; what the migrations do to rows; the infrastructure but for the network policies and what
-- the settings depend on, which declares resources and holds no state of the running program.
pub mod Base
pub mod Config
pub mod Money
pub mod Datetimes
pub mod Jobs
pub mod WorkGoals
pub mod Store
pub mod Extraction
pub mod Sms
pub mod Matches
pub mod Pipeline
pub mod Temporal
pub mod Gauges
pub mod Network
pub mod Migrations
pub mod Deploy
pub mod Application
pub mod Samples
