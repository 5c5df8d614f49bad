-- ===== src/Lib.antt =====
-- The web data extraction engine, services/api/src/wde_api.
--
-- A client creates an extraction job over HTTP; workers then take it through planning, browser
-- capture, discovery, extraction, validation and export. Everything that they share is in the tables
-- of models.py. The methods of `JobService` in services.py write these tables, each as one transaction
-- (the queue's dispatcher marks the outbox rows that it has published). This library models the tables,
-- all the methods that move a job, the handlers of the worker around them, and the dispatcher.
--
-- Parts, by file (paths are relative to services/api/src/wde_api):
-- Domain: domain.py, the states of a job, ALLOWED_TRANSITIONS, EVENT_FOR_TRANSITION and
--   `retry_delay_seconds`. Domain/Graph has the chains of allowed transitions, Domain/Delays the delay.
-- Store: models.py. A row is a record, a table a list in the order of insertion, `Db` all tables.
--   Store/Tx is the transaction: a function from the tables to a result and the new tables, or to an
--   error, which carries no tables because the session rolls back. Store/Jobs, Store/Events and
--   Store/Tables have the reads, the insertions under the unique constraints and the updates.
-- Service: services.py, a module for each phase, a function for each method, named as the method.
--   Service/Columns has the assignments to the columns of a job, Service/Lifecycle `transition` and
--   `cancel`, Service/Creation `create_job`, Service/Planning, Browser, Discovery, Extraction,
--   Validation and Export the claim, the completion and the failure of each phase, Service/Inventory
--   `_persist_discovery_candidates`, Service/Recovery `recover_expired_leases`.
-- Discovery: discovery_service.py, the choice of links and of sitemap locations.
-- System: all calls together, one after another, as main.py, queue.py and worker.py make them.
-- Invariant: the invariant of the tables, the allowed changes of a row, and a module of lemmas for
--   each phase; Invariant/Rules has a lemma for each way to build a transaction.
-- Behaviour: the theorems about single methods.
-- Worker: worker.py. Worker/Planning, Pages, Checking and Export have the handlers, Worker/Errors the
--   exceptions of the engines, Worker/Handlers the dispatch on the command, and below it the
--   calls that a handler makes; Worker/Retries, Failures and Orphans have the theorems about single
--   handlers. A handler is a sequence of sessions with the engine's answer between them.
-- Checks: validation_service.py, the rules that judge a record, and their theorems.
-- Dataset: export_service.py, `build_dataset` and the cells of the writers (Dataset/Cells).
-- Queries: services.py, the queries of a job's status, results, pages and events; Queries/Files has the
--   queries of files and the clean-up of what has expired.
-- Dispatch: queue.py, the dispatcher of the outbox, with its lemmas in Dispatch/Pending and its theorem
--   in Dispatch/Delivery. It stands apart from System, since no method of services.py reads the column
--   `published_at`, the only one it writes.
-- Limiter: security.py, the sliding window of the rate limiter.
-- Demo and Tests: a small store, and the theorems applied to it. Prelude: shared names and lemmas on lists.
--
-- How the model reads the source:
-- Identifiers (UUIDs) and times are numbers. A method reads the clock once, a time counts
--   milliseconds. A UUID that a method draws is its argument; where it draws several, `ids n` is the
--   one for the n-th row of the table.
-- Transactions follow one another: a row lock finds no locked row, and `skip_locked` skips none.
-- Operation keys are structured values in place of texts. Of an event's payload the stage and the
--   percentage are kept. Content hashes, record payloads, float scores and browser metadata are left
--   out, since no method branches on them.
-- The counts and percentages are natural numbers without a width; every loop runs over a list, so
--   nothing needs fuel but the redelivery of a planning command (Worker/Retries), whose fuel is one more
--   than `planner_max_retries`, which is proved enough.
-- The URL policy, the classification of links, the XML parser, the request fingerprint, the hash of
--   a plan, the validator of records and the random part of a delay are arguments.
-- What others commit while a worker's engine works is a function on the tables, or a sequence of calls.
--   Numbers of payloads, regular expressions, date and URL parsers, `normalize`, the rendering of the
--   bytes of a file and the answers of the object store and of the queue are arguments.
-- A put may leave a file although it raises or runs out of time, and a deletion may raise; which files
--   and deletions these are is an argument.
-- `updated_at` is written by `transition` only: its refresh at every other update of a row is left out.
--   So is the overflow of a float in `retry_delay_seconds` above 1024 attempts.
--
-- Not modelled: the HTTP application (main.py) but for the dispatch after the creation of a job;
-- settings, logging and database access; the planner and its model; the browser engine; the extraction
-- of records from a document; the bytes of export files; the storage adapters; authentication; the web
-- application. They are input and output, or stand for libraries and remote services, or are not part
-- of the model yet.
pub mod Prelude
pub mod Domain
pub mod Store
pub mod Service
pub mod Discovery
pub mod Invariant
pub mod Behaviour
pub mod System
pub mod Limiter
pub mod Worker
pub mod Dataset
pub mod Checks
pub mod Dispatch
pub mod Queries
pub mod Demo
pub mod Tests
