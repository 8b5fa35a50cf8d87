-- ===== src/Lib.antt =====
-- rakkio (crate prosepect-api): the core of the personal productivity server.
--
-- The program is an Axum API over PostgreSQL with a worker that synchronizes calendars and tasks
-- with Google. The database owns all state; every operation below is one transaction, and is
-- modelled as a function from the tables that it reads and writes to a result, which carries the
-- new tables on success. A failure carries no tables: the transaction is rolled back.
--
-- Error        apps/api/src/error.rs: AppError, AppResult and the response of an error.
-- Reconcile    apps/api/src/google_tasks.rs: the three-way merge of the fields that a task shares
--              with Google Tasks. Merge has the merge of one field, Sides the whole record.
-- Limiter      apps/api/src/rate_limit.rs: the sliding-window limiter. Table has the lemmas on its
--              table, Window the specification, Refinement and Bound the theorems.
-- Jobs         apps/api/src/sync_store.rs and apps/api/src/sync_service.rs: the queue of
--              synchronization jobs (enqueue_sync, claim_sync_job, complete_sync_job,
--              fail_sync_job) and the worker's turn (run_once, in Run). Workers has several workers
--              at one queue as a step relation; Exclusion and Sound its invariant, Stale what
--              becomes of a job whose worker dies, Backoff the delays.
-- Tasks        apps/api/src/models.rs and apps/api/src/task_recurrence.rs: the types of a task, its
--              requests and its templates. Validate and Labels have validate_task_fields and
--              validate_labels of apps/api/src/store.rs, Recurrence the templates of a series.
-- Store        apps/api/src/store.rs and apps/api/src/calendar_store.rs over the tables of users,
--              tasks, labels, calendars, events, mappings and jobs. Changes has the trigger on the
--              tasks, Blocks the event of a scheduled task (sync_task_calendar_event,
--              mark_event_for_sync), Relations what a task may refer to, Series the next occurrence,
--              Tasks the operations on tasks (create_task, update_task_scoped, delete_task,
--              reorder_tasks), Pages list_tasks, Projects those on projects without delete_project
--              (Stale has the theorem on them), Events those on events, Calendars create_calendar
--              and update_calendar. Versions, Order, Successor, Deletion, Invariant, Reach, Ancestors
--              and Pages/Walk have the theorems on tasks, Frame and Stored what they share.
--
-- Sync         apps/api/src/sync_service.rs: the two-way synchronization of calendars with Google.
--              Google has its events and the texts of a recurrence, Canonical the statements by
--              which one becomes an event here, Apply apply_remote_event, Pull pull_calendar, Push
--              push_calendar, Run sync_calendars, Discover discover_calendars, Resolve
--              resolve_sync_conflict of apps/api/src/sync_store.rs, and Watch the periodic jobs and
--              the channels of notifications there. Protect, Placed, Converge, Frame, Tokens,
--              Stuck, Settles, Rules, Choice and Resolvable have the theorems on them.
-- Review       apps/api/src/daily_review_store.rs, and the daily plan and the settings of
--              apps/api/src/store.rs: Settings (update_user_settings), Plan (update_daily_focus) and
--              Complete (start_daily_review, complete_daily_review), with the theorems in Order and
--              Rewritten.
--
-- Google is outside: what it answers to a pull is a list of answers, in their order, and its other
-- answers are functions of the request (Google in Push), since a run makes each request once. The
-- text that chrono reads and writes for an instant, and SHA-256, are parameters (Codec). An event
-- that is reported changes the tables in one step or not at all; what it changed stays when a later
-- one fails. The receipts of a deletion with Undo, which the synchronization deletes in some cases,
-- are not among its tables.
--
-- The operations on scheduled tasks and on events call mark_event_for_sync, which marks the mapping of
-- an event in a Google calendar and inserts a job of Jobs, for the worker to claim. The deletion of the
-- next occurrence on reopening a task does not. Where Google Tasks is enabled, the trigger of
-- migrations/0022_google_tasks.sql on the tasks inserts a job for it on each INSERT and DELETE of a
-- task, and on each UPDATE that changes what Google Tasks shows of it.
--
-- Numbers. Identifiers (UUIDs) and instants are natural numbers; the instants of the database count
-- microseconds. Text is the list of its code points; trim is defined by the Unicode property
-- White_Space. A SQL query is written out as a function on the list of a table's rows. What a query
-- draws from outside (an identifier, the clock, the rows that other transactions lock) is an
-- argument. Failures of the connection to the database are not modelled.
--
-- In Store, the identifiers of a transaction are numbered in the order in which it draws them, and
-- NOW() and Utc::now are one instant. Where the schema acts on a statement (the actions of the foreign
-- keys on a deletion, the unique source of an occurrence, the range of a version or a position), the
-- definitions say so; checks that repeat what the code has validated, the limits on the content of a
-- workspace, and the tables that the operations do not name are left out.
--
-- Loops are structural recursions on the tables and lists that the source iterates over. The
-- recursive query for the parents of a task takes the number of the rows as fuel: UNION drops a row
-- that it has met, so that the query visits each row once at most; Store/Ancestors is about that.
--
-- Not modelled: the HTTP layer, authentication, the transport to Google, object storage, exports, and
-- the web client.
pub mod Base
pub mod Error
pub mod Reconcile
pub mod Limiter
pub mod Jobs
pub mod Tasks
pub mod Store
pub mod Sync
pub mod Review
