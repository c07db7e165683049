-- ===== src/Lib.antt =====
-- Verification of xyberos: the durable executor, the dependency container, the plugins
-- and the session store.
--
-- The program. A durable execution is a workflow whose progress is kept in a journal, a SQLite
-- database, so that any worker can go on with it after a crash. `JournalStore`
-- (src/xyberos/durable/store.py) is the only code that writes the journal: submitters insert
-- executions, workers claim them under a lease with a fencing token, start, complete, fail and skip
-- their steps, and end them; operators cancel and resume. Each operation is one transaction, but for
-- `submit`, which registers the definition in one and then submits in another, and the statements
-- by which a worker moves an execution or a step carry the lease guard. `plan_next`
-- (src/xyberos/durable/scheduler.py) derives the next action from the definition and the persisted
-- step states alone.
--
-- Beside it stand parts that an application is made of: `ProviderRegistry`
-- (src/xyberos/runtime/dependencies.py) orders providers so that each can be built after what it
-- needs, `PluginRegistry` (src/xyberos/plugins/registry.py) starts and stops plugins, and
-- `InMemorySessionStore` (src/xyberos/http/sessions.py) keeps a bounded number of sessions.
--
-- The model, by file:
--   Prelude, Errors, Table    shared names, the errors that the code raises, tables of keyed rows
--   Execution/Models          src/xyberos/execution/models.py: Step, Edge, Workflow
--   Execution/Validation      src/xyberos/execution/validation.py: the checks of steps and edges
--   Execution/Validation/Acyclic
--                             its search for a cycle
--   Durable/Models            src/xyberos/durable/models.py: statuses and transition tables
--   Durable/Rows              src/xyberos/durable/journal.py: a record for a row of each table,
--                             and `Journal`, which holds the tables
--   Durable/Txn               transactions: `Journal → Result (A × Journal)`; `commit` is
--                             `JournalStore._write`, which rolls back where an operation raises
--   Durable/Store/Writes      the guarded writes (`_set_execution_status`, `_set_step_state`,
--                             `_release_lease`, `_explain_refused_write`, `_dump`)
--   Durable/Store/Claims, Steps, Endings, Submission
--                             the operations of `JournalStore` under their names; a part of an
--                             operation that the proofs name has a name of its own
--   Durable/Store/History     a call of any operation, and a history of calls by anyone
--   Durable/Store/Inspection  the queries of `JournalStore` on which a worker acts
--   Durable/Scheduler         src/xyberos/durable/scheduler.py
--   Durable/Definitions       src/xyberos/durable/definitions.py
--   Durable/Work              what a worker does: transactions, and the calls of others between them
--   Durable/Recovery          src/xyberos/durable/recovery.py
--   Durable/Worker            src/xyberos/durable/worker.py: `run_once`
--   Runtime/Dependencies      src/xyberos/runtime/dependencies.py: registration and validation
--   Plugins/Registry          src/xyberos/plugins/registry.py: registration, start and stop
--   Http/Sessions             src/xyberos/http/sessions.py: the sessions that a process keeps
--   Durable/Examples          a small journal and workflow with the tests
-- Every other file holds proofs.
--
-- A history has the two transactions of `submit` as two calls, so that others may come between
-- them; `submit` itself takes what others do between them as an argument.
--
-- Choices. Times are microseconds as natural numbers, in place of ISO texts, whose order is the
-- order of the times. An UPDATE that the code does not check is an update whose result is not used.
-- An operation takes its clock reading as an argument; a history gives each call its own, in any
-- order, so that no theorem about histories assumes that the clocks of workers agree. An
-- interleaving of workers is an order of their transactions, because SQLite serialises writers.
-- A worker is modelled among others: before each of its transactions a schedule says which calls
-- others made and what its clock reads, and its step functions answer as they like, so that a
-- statement about `run_once` holds of every interleaving. Three loops run on fuel. The search for a
-- cycle has one round for each step and one more, which `visited_steps_ends` shows to be enough.
-- The loop of `run_once` has the bound that the code gives it, which `advance_bounded` shows is
-- never met. The visits of providers have one level for each provider and one more, which
-- `validate_ends` shows to be enough. The other recursions are structural.
--
-- Parameters, for code that is not in the repository: `json.dumps` (as `Payloads.dumps`), Python's
-- `sorted`, `json.loads` and dictionaries as values (as `Python`), the hash of a definition's JSON
-- text, `str.strip` on a name (as `blank`), and the step functions, reconcilers, retry delays and
-- hooks of plugins.
--
-- Not modelled: the texts of error messages, reasons and event details, which nothing reads back;
-- the views for operators; the checks of a definition that inspect Python objects; the endless loop
-- `serve` around `run_once`; the inspection of provider factories; everything outside the files
-- named above.
pub mod Prelude
pub mod Errors
pub mod Table
pub mod Execution
pub mod Durable
pub mod Runtime
pub mod Plugins
pub mod Http
