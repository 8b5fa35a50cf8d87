-- ===== src/Store/Series.antt =====
-- apps/api/src/store.rs: the rows of a series of recurring tasks. Completing a task inserts the next
-- one, and reopening it deletes that one while nobody has changed it.
use prosepect.Base.{
  ℕ, suc, ◌+◌, ◌-◌, ◌^◌, max, Option, none, some, Bool, true, false, ◌&&◌, List, [], ◌∷◌, ◌++◌,
  if◌then◌else◌, option_test, nat_eq, ◌==◌, ltb, Text, text_eq, any, find?, delete_where,
  update_where,
}
use prosepect.Error.{
  AppResult, ok, err, panicked, AppError, validation, conflict, not_found, database, literal,
  constraint_violation, ok_or, fail_if, ◌>>=◌, ◌>>◌,
}
use prosepect.Tasks.{Platform, Task, RecurringTaskState, TaskStatus, todo}
use prosepect.Tasks.Recurrence.{successor_source, next_recurrence_date}
use prosepect.Store.{
  Db, EventRow, is_task, stands_for, forget_event, is_about, forget_conflict_event,
}
use prosepect.Store.Changes.{enqueue_google_tasks_change}
use prosepect.Store.Blocks.{sync_task_calendar_event}

abbrev pub is_todo : TaskStatus → Bool
is_todo todo = true
is_todo _ = false

abbrev pub top_position : ℕ → List RecurringTaskState → ℕ
top_position user [] = 0
top_position user (t ∷ ts) =
    if t.user_id == user then max t.task.position (top_position user ts) else top_position user ts

-- `COALESCE(MAX(position), 0) + 1024`, a BIGINT.
unfoldable pub next_task_position : ℕ → Db → AppResult ℕ
next_task_position user db =
    if ltb (top_position user db.tasks + 1024) (2 ^ 63)
    then ok (top_position user db.tasks + 1024)
    else err (database (some (record { constraint = none; code = some "22003" })))

abbrev pub has_label : ℕ → Text → (ℕ × Text) → Bool
has_label user name l = l.0 == user && text_eq l.1 name

-- `INSERT ... ON CONFLICT DO NOTHING`, for each label.
unfoldable pub insert_labels : ℕ → List Text → List (ℕ × Text) → List (ℕ × Text)
insert_labels user [] rows = rows
insert_labels user (name ∷ names) rows =
    insert_labels user names
      (if any (has_label user name) rows then rows else rows ++ (user, name) ∷ [])

unfoldable pub ensure_labels : ℕ → List Text → Db → Db
unfolding insert_labels
ensure_labels user names db = record db { labels = insert_labels user names db.labels }

abbrev pub is_event_of_task : ℕ → EventRow → Bool
is_event_of_task id e = option_test e.event.linked_task_id (some id)

abbrev pub is_successor : ℕ → RecurringTaskState → Bool
is_successor id t = option_test t.recurrence_source_id (some id)

abbrev pub forget_source : RecurringTaskState → RecurringTaskState
forget_source t = record t { recurrence_source_id = none }

-- `DELETE FROM tasks` and the actions of the foreign keys: the event of the task goes with it, its
-- mapping, its conflicts and its successor lose the reference.
abbrev pub drop_row : ℕ → ℕ → Db → Db
drop_row user id db = record db {
  tasks = update_where (is_successor id) forget_source (delete_where (is_task user id) db.tasks);
  events = delete_where (is_event_of_task id) db.events;
  mappings =
      update_where (λ m. any (λ e. is_event_of_task id e && stands_for e.event.id m) db.events)
        forget_event db.mappings;
  conflicts =
      update_where (λ c. any (λ e. is_event_of_task id e && is_about e.event.id c) db.events)
        forget_conflict_event db.conflicts;
}

-- The deletion of a row that is there, with the trigger.
unfoldable pub drop_task : Platform → ℕ → ℕ → ℕ → Db → Db
drop_task p now user id db =
    enqueue_google_tasks_change p.uuid_text now user true (drop_row user id db)

abbrev pub reopen_error : AppError
reopen_error = conflict (literal "task cannot be reopened after its next occurrence was changed")

abbrev pub is_successor_of : ℕ → ℕ → RecurringTaskState → Bool
is_successor_of user id t = is_successor id t && t.user_id == user

unfoldable pub remove_next_occurrence_for_reopen : Platform → ℕ → ℕ → ℕ → Db → AppResult Db
remove_next_occurrence_for_reopen p now user id db =
    elim (find? (is_successor_of user id) db.tasks) [
      | none ↦ ok db
      | some next ↦
          if is_todo next.task.status && next.task.version == 1
          then ok (drop_task p now user next.task.id db)
          else err reopen_error
    ]

-- `RecurringTaskState::load`
unfoldable pub load : ℕ → ℕ → Db → AppResult RecurringTaskState
load user id db = ok_or (find? (is_task user id) db.tasks) (not_found "task")

-- The INSERT, with the unique index on the source and the trigger.
unfoldable pub insert_task : Platform → ℕ → RecurringTaskState → Db → AppResult Db
insert_task p now row db = do
  fail_if
      (elim row.recurrence_source_id [
        | none ↦ false
        | some source ↦ any (is_successor source) db.tasks
      ])
      (constraint_violation "23505" "tasks_recurrence_source_idx")
  ok (
      enqueue_google_tasks_change p.uuid_text now row.user_id true
        (record db { next_id = suc db.next_id; tasks = db.tasks ++ row ∷ [] }))

module _ (p : Platform) where
  -- `value.map(|value| value + shift)`; chrono's `+` panics out of range.
  unfoldable pub shifted : ℕ → Option ℕ → AppResult (Option ℕ)
  shifted shift none = ok none
  shifted shift (some value) = elim (p.checked_add_signed value shift) [
    | none ↦ panicked
    | some later ↦ ok (some later)
  ]

module _ (p : Platform) (now user : ℕ) where
  unfoldable pub next_row : ℕ → Task → ℕ → Option ℕ → Option ℕ → Option ℕ → ℕ → RecurringTaskState
  next_row id source due_at starts_at ends_at remind_at position = record {
    task = record {
      id = id;
      project_id = source.project_id;
      parent_task_id = none;
      title = source.title;
      description = source.description;
      due_at = some due_at;
      scheduled_start = starts_at;
      scheduled_end = ends_at;
      status = todo;
      priority = source.priority;
      recurrence = source.recurrence;
      labels = source.labels;
      remind_at = remind_at;
      position = position;
      completed_at = none;
      created_at = now;
      updated_at = now;
      version = 1;
    };
    recurrence_defaults = none;
    recurrence_project_id = none;
    user_id = user;
    recurrence_source_id = some source.id;
  }

  unfoldable pub create_next_recurring_task : ℕ → Db → AppResult Db
  create_next_recurring_task id db = do
    recurring ← load user id db
    let source = successor_source recurring
    let labelled = ensure_labels user source.labels db
    due_at ← ok_or source.due_at (validation (literal "a recurring task must have a deadline"))
    next_due_at ← next_recurrence_date p due_at source.recurrence
    let shift = next_due_at - due_at
    position ← next_task_position user labelled
    starts_at ← shifted p shift source.scheduled_start
    ends_at ← shifted p shift source.scheduled_end
    remind_at ← shifted p shift source.remind_at
    let next = next_row labelled.next_id source next_due_at starts_at ends_at remind_at position
    inserted ← insert_task p now next labelled
    sync_task_calendar_event p now user next.task inserted
