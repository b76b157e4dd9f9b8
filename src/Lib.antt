-- ===== src/Lib.antt =====
-- A verification library for PyRunner, a Django program that stores Python scripts and runs them by
-- hand, by schedule and by API, with django-q2 as its queue.
--
-- The parts that are modelled, and where:
--   Filters: core/vectors/filters.py, the payload filters of the vector stores. Filters/Json has the
--     JSON values; Filters/Grammar `validate`; Filters/Evaluate `matches`; Filters/Qdrant `to_qdrant`.
--     The Qdrant server is the record `Server` of Filters/Qdrant/Server, a parameter with the laws
--     that the code relies on. Numbers are a type parameter with a comparison that may fail (NaN).
--   Runs: the row of a run (core/models/run.py), the worker's `execute_run` and the isolation policy
--     (core/executor.py), the stops (core/services/task_service.py), the reconciler (core/models/run.py).
--     A worker keeps its own copy of a run; what other processes do to the row between its database
--     calls is a function argument, so each theorem holds for every such interference.
--   Schedules: core/services/schedule_service.py and core/services/backup_schedule_service.py.
--     Schedules/Clock converts wall-clock times to UTC cron fields: a zone is its offset in minutes at
--     the time in question, within a day, and cron expressions are their fields, not text.
--     Schedules/NextRun has `calculate_next_run` on naive local seconds. Schedules/Service has
--     django-q's table and `sync_schedule`; its Infrastructure the rows that PyRun keeps for itself,
--     the backup's among them; its Pause `pause_all_schedules` and `resume_all_schedules`. The
--     record `Clock` of Schedules/Service holds what they read: the time, zoneinfo's conversion,
--     croniter's step and its expansion of an expression. Schedules/CronText is
--     `cron_to_utc_expressions`, with croniter's lists and the result as fields.
--   Tasks: core/tasks.py. Tasks/Packages is `execute_package_operation` over core/models/package.py;
--     Tasks/Scheduled `execute_scheduled_run`, `execute_yearly_scheduled_run` and
--     `queue_script_run` with `stamp_library_versions` (core/services/library_service.py), which use
--     `calculate_next_run` of Schedules and the rows of Runs.
--   Vectors: core/vectors/points.py and the adapter core/vectors/qdrant_store.py. Vectors/Points has
--     the checks of a point, Vectors/QdrantStore what is stored of it, its Queries `search`, its
--     Scan `count` and `scroll`, its Delete `delete`, all with the filters of Filters. The server's answers are the record
--     `Points` of Queries, a parameter with the laws that Qdrant documents, under which its ranking for
--     a query may be approximate; Python's numbers are the
--     record `Numbers`, uuid5 a function. Its Request is `_request` over what each attempt brings.
--     Vectors/LocalStore is core/vectors/local_store.py: the rows of the SQLite file, `upsert`, `delete`
--     and `get`; its Cache the matrices kept in memory. numpy and the clause of `to_sqlite` are function
--     arguments.
--   Libraries: core/models/library.py and `materialize_libraries` of
--     core/services/library_service.py: validation, revisions, and what a run imports, which
--     `stamp_library_versions` of Tasks pins. Libraries/Waiting is what happens to the libraries while
--     the run waits, Libraries/Deleted a run whose library is gone. The content hash is a function argument.
--   Netguard: core/netguard.py, with addresses as numbers. urllib, the resolver and the tables of
--     ipaddress are arguments.
--   Retention: core/services/retention_service.py. RateLimit: core/ratelimit.py; RateLimit/ClientIp is
--     `client_ip`, over texts as code points.
--   Prelude: shared names, Boolean tests, list helpers. Tests: the properties at concrete inputs.
-- All recursion is on the structure of the data, but for the loop over nine years of
-- `_next_yearly_occurrence`, whose bound is the source's; it is proved to be enough. The loops that
-- page through a server's points have fuel: one more than the points is proved to be enough.
--
-- Not modelled: views, forms, templates and migrations (Django glue); encryption, networks, mail and
-- the process backends (input and output, which enter as outcomes); `to_sqlite`, whose meaning is
-- SQLite's; masking and truncation of output; plugins; the example plugins.
pub mod Filters
pub mod Libraries
pub mod Netguard
pub mod Prelude
pub mod RateLimit
pub mod Retention
pub mod Runs
pub mod Schedules
pub mod Tasks
pub mod Tests
pub mod Vectors
