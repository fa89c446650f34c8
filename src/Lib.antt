-- ===== src/Lib.antt =====
-- AI JS Unpack unpacks, audits and rebuilds front-end builds that their owner has authorised. An
-- API (apps/api) keeps jobs, artifacts and settings in a metadata database and a file store.
-- Workers (apps/worker) poll that database as a queue: a worker leases a job, runs it through a
-- pipeline (core analysis, agent crew, reconstruction, build, runtime comparison, review and
-- repair, packaging), and reports each step back with `update_status`. Retention sweeps and
-- deletions of jobs remove the files later.
--
-- The files, by the part of the program that they model:
-- - Prelude and its children: library names, Boolean tests on the native numbers, an insertion
--   sort, sorted sets of texts, `str.strip`, `str.split` and `str.join`, and tables. A table is
--   a list of rows with a key column; `find` is a SELECT by the key, `update` is an UPDATE ...
--   WHERE key = k AND test, and `rowcount` is the number of rows that it would touch. `IsKeyed`
--   says that the key column is a primary key.
-- - Json: the JSON values that jobs and settings carry.
-- - Store.Types, Store.Jobs, Store.Artifacts: the rows and enumerations of
--   apps/api/app/models.py, and the methods of `DatabaseStore` (apps/api/app/store.py) on one
--   job.
-- - Store.Leases, Store.Requeue: `lease_next_job`, `renew_lease` and `requeue_expired_leases`,
--   the queue that the workers poll.
-- - Store.History: the transactions on jobs as one step function, and histories of them.
-- - Store.Settings: the revisions of settings with their optimistic concurrency. A write reads
--   one state of the table and commits on another.
-- - Store.Retention, Store.Deletion: `cleanup_retention`, `cleanup_expired_artifacts`,
--   `soft_delete_job`.
-- - Worker.Proxy: `LeasedStoreProxy` of apps/worker/worker/queue.py, through which a pipeline
--   reports.
-- - Worker.Runner: `run_once` and `run_leased_job` of the same file, with the run of a pipeline
--   as one change of the table of jobs.
-- - Worker.Pipeline: `WorkerPipeline` of apps/worker/worker/pipeline.py. Types holds the context
--   and the results of the runners, Config what is read of the configuration of a job, Summary
--   the summaries, Host the runners and the monad of steps, Stages, Review and Run the methods.
--   A run is a step on its context and on the world behind the runners, which answer or raise.
-- - Auth: apps/api/app/auth.py. Roles holds the roles and the access context, Codec the base64
--   and JSON of a token, Token its creation and verification, whose exceptions are a `Verdict`;
--   Token.Accepts is about accepted tokens, Token.Errors about those that end in another
--   exception, Token.RoundTrip about created ones.
-- - Crew: the crew of agents, apps/worker/worker/agent_runtime.py. Specs holds the
--   specifications of the agents, Plan the checks on them and the order of the stages; the
--   search for a cycle runs on fuel, and one unit for each stage is enough. Executions holds the
--   executions of agents and stages and their statuses, Budget the context budget of a prompt,
--   Run the execution of the stages, Reviews the review of the crew, Conflicts the conflicts
--   between specialists. The adapter that calls a model, the text of a prompt and the size of a
--   JSON text are parameters.
-- - Api: the routes of apps/api/app/main.py. Guards asks for roles, Jobs is the routes that
--   cancel, delete and clean up a job over the tables of the store, Settings those that write
--   and roll back settings, Paths the checks of an upload. A route answers a status code and the
--   tables. The validation of a patch of the runtime settings is a parameter.
-- - Store.Tests, Worker.Tests, Auth.Tests, Crew.Tests, Api.Tests: concrete tables on which the
--   theorems are applied.
--
-- A method of the store that runs in one transaction is one function from the tables to the
-- answer and the tables; what a worker or the API does between two transactions is a history, a
-- list of calls in any order. An exception is a result `err`, and a method that raises in its
-- transaction gives back the tables as it found them, except where the source commits first.
--
-- Python's datetime is the record `Datetime`: what `fromisoformat` reads, what `isoformat`
-- prints, and the documented laws between them. The order that the database puts on texts is the
-- parameter `Collation`, with `IsTotal` where an order is relied on. The file store is the
-- record `ArtifactStore`. What the tokens use of Python's hmac, base64 and json is the record
-- `Codec`, of which the theorems assume that a text is base64 and, where they say so, that the
-- values of one token are read back. Identifiers that are drawn at random (`os.urandom`) and the
-- clock are arguments. Loops over rows are recursion on the list of rows. Two loops run on fuel:
-- the review loop of the pipeline, a `while True` in the source, for which five units are
-- enough, since the budget of attempts is never above five, and the search for a cycle in the
-- plan of a crew.
--
-- Not modelled: SQL text, schema migration, network and process input and output, logging, the
-- TypeScript packages (packages/core, packages/shared, apps/web), numbers of a configuration
-- that are infinite or NaN, the heartbeats and alerts of the operations, the file store of
-- artifacts, the providers of agents and their contracts, build validation, runtime comparison,
-- reconstruction, packaging, the browser runner, the sandbox, the configuration and deployment
-- checks, knowledge and memory, and the tools for releases and evaluation.
pub mod Api
pub mod Auth
pub mod Crew
pub mod Json
pub mod Prelude
pub mod Store
pub mod Worker
