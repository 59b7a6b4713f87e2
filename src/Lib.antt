-- ===== src/Lib.antt =====
-- The asynchronous virtual fitting of the AI server: a job goes from a request through Pruna (or one
-- fallback) to one result message, while several Workers, the Webhook of Runware and a Watchdog work
-- on it at once. All of them change a job only by methods of three repositories, each of which is one
-- PostgreSQL transaction that locks the rows it changes. The development models these methods, and
-- every interleaving of them.
--
-- The parts and their files (paths from the root of the repository):
--   S3Key, Texts      app/clients/s3.py `validate_s3_key`; the checks of codes and of image addresses
--                     (`_SAFE_CODE`, `check_runware_image_url`)
--   Payload           `_check_result_payload` of app/virtual_fitting/repositories/async_job_state.py:
--                     a JSON object becomes one of two results, or the check raises
--   Job, Store        the rows (`AsyncFittingJob`, `PrunaAttempt`, the tables of scripts/db), the tables
--                     as one record, and a method as a function of the times of its statements and the
--                     tables
--   JobState/*        `AsyncJobStateRepository`: Change has `_run`, `_update`, `_event_update` and
--                     `_claim`; Lease, Submission, Events, Postprocess, Fallback, Publication and
--                     NotAccepted have the methods
--   Limiter/*         `PrunaLimiter` of app/virtual_fitting/repositories/pruna_limiter.py
--   JobTable          `AsyncJobRepository` of app/virtual_fitting/repositories/async_job_repository.py
--   Rules/*           what holds of a row between two transactions, and how a row may change; that each
--                     method keeps to both
--   History/*         sequences of calls of all methods that change a table, and what holds over them
--   Publisher/*       `ResultPublishProcessor.publish` of app/virtual_fitting/result_publisher.py: its
--                     transactions, with any history of other processes before each
--   NextStep          `next_step_for` and `deletion_allowed` of app/virtual_fitting/pruna_submitter.py
--   Paths             `follow_up_paths` and the paths that it joins, from app/virtual_fitting/watchdog.py and
--                     app/virtual_fitting/result_publisher.py
--   Process/*         a small monad for the code around the repositories: the tables, the clock, the moments at
--                     which others are asked, and a trace of the calls outside that matter; with rules
--                     for what code keeps (Keeps), that it ends (Total), and what holds before and
--                     after it (Triples)
--   Async             `async_result_key` of app/virtual_fitting/async_storage.py
--   Handlers/*        `PostprocessHandler` of app/virtual_fitting/postprocess_handler.py and
--                     `RunFallbackHandler` of app/virtual_fitting/fallback_handler.py: Texts, Postprocess and
--                     Fallback are the code, Counting and Calls/* count its calls outside
--   Sending           `_send`, `_rejected` and `_decide` of `PrunaSubmitter` in
--                     app/virtual_fitting/pruna_submitter.py: the one call of Runware, and what follows
--                     from its answer
--   Submitter/*       the rest of `PrunaSubmitter`: the wait for a place, and the whole
--   Precheck          `RequestPrecheck.run` of app/virtual_fitting/request_worker.py
--   Resubmitter       `PrunaResubmitter` of app/virtual_fitting/pruna_resubmit.py, which uses Submitter
--   Requests          `RequestProcessor` of app/virtual_fitting/request_worker.py, which uses Submitter and
--                     Precheck
--   FollowUp          `FollowUpProcessor` of app/virtual_fitting/postprocess_worker.py, for any handlers
--   Usage/*           the money of a day: app/virtual_fitting/repositories/usage_repository.py,
--                     `TaskCostRepository` and app/virtual_fitting/budget.py; amounts are natural
--                     numbers of the smallest unit
--   Examples          the theorems at concrete values
--
-- How the model corresponds to the code. A time is a number of microseconds, as `timestamptz` holds it,
-- and a duration too. A UUID is its number; an argument is `none` where `uuid.UUID` raises. ValueError
-- and TypeError are `bad_input`, a database error is `database`; where one is raised the transaction
-- is rolled back. Python's checks of the type of an argument have no counterpart, since the model's
-- arguments have their types. `statement_timestamp()` differs between the statements of a transaction,
-- so a method takes the time of each (`Clock`); nothing is assumed of their order. The tables are lists of
-- rows, in which a row is found by its primary key as the first one. Whether PostgreSQL can represent a
-- time, and `str.isprintable`, are arguments.
--
-- The code around the repositories is a `Proc` from Process: a transaction (`call`) starts from the tables as
-- the commands of other processes leave them, which may be any; every answer from outside (S3, Runware, the
-- LLM, SQS, the clock) is a function of the moment at which it is asked for, and may be any; time never goes
-- back. An exception is a value, and each error of a transaction is raised. What a heartbeat thread writes is
-- among the commands of others. A call of Pruna in the trace keeps the tables that
-- the caller's last transaction left; what others write between that and the HTTP call is not placed before it.
--
-- Fuel. The repositories need none: each definition is by recursion on a list. The wait for a place has one
-- unit for each microsecond of the longest wait and one more; if the time between two polls is not zero, that
-- is enough (see Submitter.Ends), since each nap takes time and the loop stops at the longest wait. The
-- looks for an image have one bundle more than the count in the row allows, and the waits between them one
-- unit for each microsecond. A loop that ran out would be `unfinished`.
--
-- Not modelled: lock timeouts and lost connections (the transaction has then no effect), logs and metrics;
-- the loops of the Workers that receive messages, the Webhook, and the Watchdog but for its paths,
-- which appear as any commands of others; the parsing of messages; the HTTP of the providers.
pub mod Prelude
pub mod S3Key
pub mod Texts
pub mod Payload
pub mod Job
pub mod Store
pub mod JobState
pub mod Limiter
pub mod JobTable
pub mod Rules
pub mod History
pub mod NextStep
pub mod Paths
pub mod Usage
pub mod Publisher
pub mod Async
pub mod Process
pub mod Handlers
pub mod Sending
pub mod Submitter
pub mod Precheck
pub mod Resubmitter
pub mod FollowUp
pub mod Requests
pub mod Examples
