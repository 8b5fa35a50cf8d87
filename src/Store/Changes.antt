-- ===== src/Store/Changes.antt =====
-- The trigger of migrations/0022_google_tasks.sql on the tasks: a change of a task that Google Tasks
-- shows queues a synchronization with it.
use text.Mathlib.Text.{◌==◌ as str_eq}
use prosepect.Base.{
  ℕ, Text, suc, ◌+◌, none, Bool, true, false, not, ◌&&◌, ◌||◌, List, [], ◌∷◌, ◌++◌, ◌==◌,
  if◌then◌else◌, any, bool_eq, nat_eq, option_test, text_eq, codes, starts_with, update_where,
}
use prosepect.Jobs.{JobStatus, pending, SyncJob, new_job}
use prosepect.Tasks.{Task, is_completed}
use prosepect.Store.{Db, TaskConnection}

abbrev pub is_enabled_for : ℕ → TaskConnection → Bool
is_enabled_for user c = c.user_id == user && c.enabled

abbrev pub count_change : TaskConnection → TaskConnection
count_change c = record c { change_revision = c.change_revision + 1 }

abbrev is_pending : JobStatus → Bool
is_pending pending = true
is_pending _ = false

-- The predicate of the unique index on the pending job of a user.
abbrev pub is_pending_change : ℕ → SyncJob → Bool
is_pending_change user j =
    j.user_id == user
    && str_eq j.kind "tasks_sync"
    && is_pending j.status
    && starts_with j.idempotency_key (codes "tasks-change:")

-- Whether the UPDATE of a row is a change that Google Tasks shows.
unfoldable pub is_shown_change : Task → Task → Bool
is_shown_change old new =
    not (text_eq old.title new.title)
    || not (option_test old.due_at new.due_at)
    || (if is_completed old.status then not (is_completed new.status) else is_completed new.status)

-- The INSERT, with the action on a conflict with the pending job of the user, which changes nothing.
unfoldable pub insert_change_job : (ℕ → Text) → ℕ → ℕ → ℕ → List SyncJob → List SyncJob
unfolding new_job
insert_change_job uuid_text now id user jobs =
    if any (is_pending_change user) jobs
    then jobs
    else jobs
      ++ new_job id now user none "tasks_sync" (codes "tasks-change:" ++ uuid_text (suc id)) ∷ []

-- The trigger after a row of the user, where it fires: `is_change` is true of an INSERT and a DELETE.
abbrev pub enqueue_google_tasks_change : (ℕ → Text) → ℕ → ℕ → Bool → Db → Db
enqueue_google_tasks_change uuid_text now user is_change db =
    let fires = is_change && any (is_enabled_for user) db.task_connections in
    record db {
      next_id = if fires then suc (suc db.next_id) else db.next_id;
      task_connections =
          if fires
          then update_where (is_enabled_for user) count_change db.task_connections
          else db.task_connections;
      jobs = if fires then insert_change_job uuid_text now db.next_id user db.jobs else db.jobs;
    }
