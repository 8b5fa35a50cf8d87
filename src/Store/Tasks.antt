-- ===== src/Store/Tasks.antt =====
-- apps/api/src/store.rs: the operations on tasks.
use prosepect.Base.{
  ℕ, suc, ◌+◌, ◌*◌, Option, none, some, Bool, false, not, ◌&&◌, ◌||◌, List, [], ◌∷◌, if◌then◌else◌,
  option_test, nat_eq, ◌==◌, Text, trim, any, find?, retain, length, update_where,
}
use prosepect.Base.Int.{ℤ, below_one, is_version}
use prosepect.Error.{
  AppResult, ok, err, AppError, validation, conflict, not_found, literal, changed_since, fail_if,
  ◌>>=◌, ◌>>◌,
}
use prosepect.Tasks.{
  Platform, Task, TaskStatus, RecurringTaskState, CreateTaskRequest, UpdateTaskRequest,
  RecurrenceEditScope, is_completed, recurs,
}
use prosepect.Tasks.Validate.{validate_task_fields}
use prosepect.Tasks.Labels.{validate_labels}
use prosepect.Tasks.Recurrence.{prepare}
use prosepect.Store.{Db, is_task, next_version}
use prosepect.Store.Blocks.{sync_task_calendar_event, remove_task_calendar_event}
use prosepect.Store.Relations.{
  has_subtasks, validate_task_relationships, validate_task_update_relationships,
}
use prosepect.Store.Changes.{is_shown_change, enqueue_google_tasks_change}
use prosepect.Store.Series.{
  next_task_position, ensure_labels, drop_task, remove_next_occurrence_for_reopen, load,
  insert_task, create_next_recurring_task,
}

-- `(status == TaskStatus::Completed).then(Utc::now)`
abbrev pub finished_at : ℕ → TaskStatus → Option ℕ
finished_at now status = if is_completed status then some now else none

unfoldable pub new_row : ℕ → ℕ → ℕ → CreateTaskRequest → List Text → ℕ → RecurringTaskState
new_row id now user request labels position = record {
  task = record {
    id = id;
    project_id = request.project_id;
    parent_task_id = request.parent_task_id;
    title = trim request.title;
    description = trim request.description;
    due_at = request.due_at;
    scheduled_start = request.scheduled_start;
    scheduled_end = request.scheduled_end;
    status = request.status;
    priority = request.priority;
    recurrence = request.recurrence;
    labels = labels;
    remind_at = request.remind_at;
    position = position;
    completed_at = finished_at now request.status;
    created_at = now;
    updated_at = now;
    version = 1;
  };
  recurrence_defaults = none;
  recurrence_project_id = none;
  user_id = user;
  recurrence_source_id = none;
}

module _ (p : Platform) (now user : ℕ) where
  unfoldable pub create_task : CreateTaskRequest → Db → AppResult (Db × Task)
  create_task request db = do
    validate_task_fields request.title request.description request.due_at request.scheduled_start
        request.scheduled_end request.recurrence request.parent_task_id
    labels ← validate_labels p request.labels
    fail_if (recurs request.recurrence && is_completed request.status)
        (validation (literal "a recurring task cannot be created as completed"))
    validate_task_relationships user request.project_id request.parent_task_id db
    position ← next_task_position user db
    let row = new_row db.next_id now user request labels position
    inserted ← insert_task p now row db
    synced ← sync_task_calendar_event p now user row.task (ensure_labels user labels inserted)
    ok (synced, row.task)

-- The columns that the UPDATE sets. A task that was completed stays completed since then.
unfoldable pub edited : ℕ → UpdateTaskRequest → List Text → ℕ → Task → Task
edited now request labels version t = record t {
  project_id = request.project_id;
  parent_task_id = request.parent_task_id;
  title = trim request.title;
  description = trim request.description;
  due_at = request.due_at;
  scheduled_start = request.scheduled_start;
  scheduled_end = request.scheduled_end;
  status = request.status;
  priority = request.priority;
  recurrence = request.recurrence;
  labels = labels;
  remind_at = request.remind_at;
  completed_at =
      if is_completed request.status
      then elim t.completed_at [ some since ↦ some since | none ↦ some now ]
      else none;
  updated_at = now;
  version = version;
}

-- The error where no row had the version: what the row's version is now.
abbrev pub task_error {ℓ} : {A : Type ℓ} → ℕ → ℕ → ℤ → Db → AppResult A
task_error user id expected db = elim (find? (is_task user id) db.tasks) [
  | some t ↦ err (conflict (changed_since "task" expected t.task.version))
  | none ↦ err (not_found "task")
]

-- `WHERE id = $1 AND user_id = $2 AND version = $16`
abbrev pub is_current : ℕ → ℕ → ℤ → RecurringTaskState → Bool
is_current user id expected t = is_task user id t && is_version expected t.task.version

-- The row that replaces an edited one.
abbrev pub rewrite : RecurringTaskState → Task → RecurringTaskState → RecurringTaskState
rewrite recurring t row = record row {
  task = t;
  recurrence_defaults = recurring.recurrence_defaults;
  recurrence_project_id = recurring.recurrence_project_id;
}

-- The UPDATE, with the trigger.
abbrev pub write_task : Platform → ℕ → ℕ → ℕ → ℤ → RecurringTaskState → Task → Task → Db → Db
write_task p now user id expected recurring old t db =
    enqueue_google_tasks_change p.uuid_text now user (is_shown_change old t) (record db {
      tasks = update_where (is_current user id expected) (rewrite recurring t) db.tasks;
    })

module _ (p : Platform) (now user : ℕ) where
  -- What follows a row's UPDATE.
  unfoldable pub after_update : Bool → Task → Db → AppResult Db
  after_update was_completed t db = do
    synced ← sync_task_calendar_event p now user t (ensure_labels user t.labels db)
    (if not was_completed && is_completed t.status && recurs t.recurrence
        then create_next_recurring_task p now user t.id synced
        else ok synced)

  unfoldable pub update_row :
      ℕ → UpdateTaskRequest → List Text → RecurringTaskState → Db → AppResult (Db × Task)
  update_row id request labels recurring db =
      elim (find? (is_current user id request.expected_version) db.tasks) [
        | none ↦ task_error user id request.expected_version db
        | some row ↦ next_version row.task.version >>= λ version.
            let t = edited now request labels version row.task in
            after_update (is_completed recurring.task.status) t
              (write_task p now user id request.expected_version recurring row.task t db)
            >>= λ done. ok (done, t)
      ]

  unfoldable pub update_task_scoped :
      ℕ → UpdateTaskRequest → Option RecurrenceEditScope → Db → AppResult (Db × Task)
  update_task_scoped id request scope db = do
    validate_task_fields request.title request.description request.due_at request.scheduled_start
        request.scheduled_end request.recurrence request.parent_task_id
    labels ← validate_labels p request.labels
    fail_if (below_one request.expected_version)
        (validation (literal "expected_version must be greater than zero"))
    fail_if (option_test request.parent_task_id (some id))
        (validation (literal "a task cannot be its own parent"))
    validate_task_relationships user request.project_id request.parent_task_id db
    validate_task_update_relationships user id request.project_id request.parent_task_id
        request.recurrence db
    stored ← load user id db
    recurring ← prepare request scope stored
    reopened ←
        (if is_completed recurring.task.status && not (is_completed request.status)
          then remove_next_occurrence_for_reopen p now user id db
          else ok db)
    update_row id request labels recurring reopened

  unfoldable pub update_task : ℕ → UpdateTaskRequest → Db → AppResult (Db × Task)
  update_task id request db = update_task_scoped id request none db

  unfoldable pub delete_task : ℕ → ℤ → Db → AppResult Db
  delete_task id expected db = do
    fail_if (below_one expected) (validation (literal "expected_version must be greater than zero"))
    fail_if (has_subtasks user id db.tasks)
        (conflict (literal "task cannot be deleted while it has subtasks"))
    let unlinked = remove_task_calendar_event p now user id db
    (if any (is_current user id expected) unlinked.tasks
        then ok (drop_task p now user id unlinked)
        else task_error user id expected unlinked)

abbrev pub contains : ℕ → List ℕ → Bool
contains id ids = any (λ i. i == id) ids

abbrev pub has_duplicates : List ℕ → Bool
has_duplicates [] = false
has_duplicates (id ∷ ids) = contains id ids || has_duplicates ids

abbrev pub move_to : ℕ → RecurringTaskState → RecurringTaskState
move_to position t = record t { task = record t.task { position = position } }

-- The loop over the identifiers, from the given index.
unfoldable pub set_positions : ℕ → ℕ → List ℕ → List RecurringTaskState → List RecurringTaskState
set_positions user index [] rows = rows
set_positions user index (id ∷ ids) rows =
    set_positions user (suc index) ids
      (update_where (is_task user id) (move_to ((index + 1) * 1024)) rows)

abbrev pub is_owned : ℕ → RecurringTaskState → Bool
is_owned user t = t.user_id == user

abbrev pub duplicates_error : AppError
duplicates_error = validation (literal "task_ids cannot contain duplicates")

abbrev pub missing_error : AppError
missing_error = validation (literal "task_ids must contain every task in the workspace")

abbrev pub foreign_error : AppError
foreign_error = validation (literal "task_ids must reference only the user's tasks")

unfoldable pub reorder_tasks : ℕ → List ℕ → Db → AppResult Db
unfolding set_positions
reorder_tasks user task_ids db = do
  fail_if (has_duplicates task_ids) duplicates_error
  fail_if (not (length (retain (is_owned user) db.tasks) == length task_ids)) missing_error
  fail_if
      (not (
        length (retain (λ t. is_owned user t && contains t.task.id task_ids) db.tasks)
        == length (retain (is_owned user) db.tasks)))
      foreign_error
  ok (record db { tasks = set_positions user 0 task_ids db.tasks })
