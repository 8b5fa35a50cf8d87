-- ===== src/Store/Invariant.antt =====
-- The operations on tasks of apps/api/src/store.rs keep every stored row well-formed.
use prosepect.Base.{
  ℕ, suc, ◌+◌, ◌≡◌, refl, sym, ap, ◌∙◌, subst, inl, inr, Option, none, some, Bool, true, false, not,
  ◌&&◌, Bool-cases, if◌then◌else◌, arith, Text, List, [], ◌∷◌, ◌++◌, All, All-append,
  All-update_where, All-find?,
}
use prosepect.Error.{ok, validation, literal, fail_if, >>=-eq-ok, >>-eq-ok}
use prosepect.Tasks.{
  Platform, Task, RecurringTaskState, CreateTaskRequest, UpdateTaskRequest, RecurrenceEditScope,
  is_completed, recurs,
}
use prosepect.Tasks.Validate.{AreValid, validate_task_fields, validate_task_fields_iff}
use prosepect.Tasks.Labels.{validate_labels}
use prosepect.Store.{Db, is_task}
use prosepect.Store.Blocks.{sync_task_calendar_event}
use prosepect.Store.Relations.{validate_task_relationships}
use prosepect.Store.Changes.{enqueue_google_tasks_change}
use prosepect.Store.Series.{
  ensure_labels, next_task_position, insert_task, create_next_recurring_task,
  remove_next_occurrence_for_reopen,
}
use prosepect.Store.Tasks.{
  new_row, create_task, edited, is_current, rewrite, after_update, update_task_scoped,
}
use prosepect.Store.Versions.{update_row-eq-ok, update-Accepted}
use prosepect.Store.Frame.{sync-tasks}
use prosepect.Store.Successor.{create_next-Follows}
use prosepect.Store.Stored.{
  IsStored, HasTemplate, trimmed-AreValid, reopen-IsStored, prepare-HasTemplate, Follows-IsStored,
}

labelled-tasks :
    (user : ℕ) (labels : List Text) (db : Db) → (ensure_labels user labels db).tasks ≡ db.tasks
unfolding ensure_labels
labelled-tasks user labels db = refl

edited-IsStored :
    (now version : ℕ) (request : UpdateTaskRequest) (labels : List Text) (t : Task)
    (recurring row : RecurringTaskState)
    → AreValid request.title request.description request.due_at request.scheduled_start
        request.scheduled_end request.recurrence request.parent_task_id
    → HasTemplate recurring.recurrence_defaults
    → IsStored (rewrite recurring (edited now request labels (version + 1) t) row)
unfolding edited
edited-IsStored now version request labels t recurring row v template = record {
  valid =
      trimmed-AreValid request.title request.description request.due_at request.scheduled_start
        request.scheduled_end request.recurrence request.parent_task_id v;
  finished = ground arith;
  versioned = omega arith;
  template = template;
}

module _ (p : Platform) (chrono : (a b c : ℕ) → p.checked_add_signed a b ≡ some c → c ≡ a + b)
    (now user : ℕ) where
  after-IsStored :
      (was : Bool) (t : Task) (db db' : Db)
      → after_update p now user was t db ≡ ok db'
      → All IsStored db.tasks
      → All IsStored db'.tasks
  unfolding after_update
  after-IsStored was t db db' h stored =
      let (synced, syncs, h1) =
        >>=-eq-ok (sync_task_calendar_event p now user t (ensure_labels user t.labels db)) _ h in
      let same : synced.tasks ≡ db.tasks =
        sync-tasks p now user t (ensure_labels user t.labels db) synced syncs
        ∙ labelled-tasks user t.labels db in
      let kept : All IsStored synced.tasks = rw same stored in
      elim (Bool-cases (not was && is_completed t.status && recurs t.recurrence)) [
        | inl completes ↦
            let creates : create_next_recurring_task p now user t.id synced ≡ ok db' =
              rw completes at h1 in
            Follows-IsStored p chrono user t.id synced db'
              (create_next-Follows p now user t.id synced db' creates) kept
        | inr other ↦ let last : synced ≡ db' = cc (rw other at h1) in rw (← last) kept
      ]

  reopened-IsStored :
      (reopens : Bool) (id : ℕ) (db db' : Db)
      → (if reopens then remove_next_occurrence_for_reopen p now user id db else ok db) ≡ ok db'
      → All IsStored db.tasks
      → All IsStored db'.tasks
  reopened-IsStored true id db db' h stored = reopen-IsStored p now user id db db' h stored
  reopened-IsStored false id db db' h stored = let same : db ≡ db' = cc h in rw (← same) stored

  -- An edit that succeeds keeps every stored task well-formed: its fields are valid, it has an instant
  -- of completion exactly when it is completed, its version is at least 1, and its template, if it
  -- has one, is valid. The addition of chrono is exact where its result is in range.
  pub update_task_scoped-IsStored :
      (id : ℕ) (request : UpdateTaskRequest) (scope : Option RecurrenceEditScope) (db db' : Db)
      (t : Task)
      → All IsStored db.tasks
      → update_task_scoped p now user id request scope db ≡ ok (db', t)
      → All IsStored db'.tasks
  update_task_scoped-IsStored id request scope db db' t stored h =
      let a = update-Accepted p now user id request scope db db' t h in
      let (own, _) = All-find? IsStored (is_task user id) db.tasks a.stored stored a.loaded in
      let template = prepare-HasTemplate request scope a.stored a.recurring a.prepared own in
      let reopened : All IsStored (a.reopened).tasks =
        reopened-IsStored
          (is_completed (a.recurring).task.status && not (is_completed request.status)) id db
          a.reopened a.reopens stored in
      let (row, found, t_is, after) =
        update_row-eq-ok p now user id request a.labels a.recurring a.reopened db' t a.updates in
      let v =
        (validate_task_fields_iff request.title request.description request.due_at
            request.scheduled_start request.scheduled_end request.recurrence
            request.parent_task_id).0
          a.valid in
      after-IsStored (is_completed ((a.recurring).task.status)) t _ db' after (
        All-update_where IsStored (is_current user id request.expected_version)
          (rewrite a.recurring t) (a.reopened).tasks
          (λ x _ _.
            subst (λ e. IsStored (rewrite a.recurring e x)) (sym t_is)
              (edited-IsStored now row.task.version request a.labels row.task a.recurring x v
                template))
          reopened)

insert_new-eq-ok :
    (p : Platform) (now : ℕ) (row : RecurringTaskState) (db db' : Db)
    → row.recurrence_source_id ≡ none
    → insert_task p now row db ≡ ok db'
    → db'.tasks ≡ db.tasks ++ row ∷ []
unfolding insert_task
insert_new-eq-ok p now row db db' s h =
    let same : enqueue_google_tasks_change p.uuid_text now row.user_id true
          (record db { next_id = suc db.next_id; tasks = db.tasks ++ row ∷ [] })
        ≡ db' =
      cc (rw s at h) in
    ap (λ d. d.tasks) (sym same)

new_row-IsStored :
    (id now user : ℕ) (request : CreateTaskRequest) (labels : List Text) (position : ℕ)
    → AreValid request.title request.description request.due_at request.scheduled_start
        request.scheduled_end request.recurrence request.parent_task_id
    → IsStored (new_row id now user request labels position)
unfolding new_row
new_row-IsStored id now user request labels position v = record {
  valid =
      trimmed-AreValid request.title request.description request.due_at request.scheduled_start
        request.scheduled_end request.recurrence request.parent_task_id v;
  finished = ground arith;
  versioned = omega arith;
  template = tt;
}

-- A task that is created is well-formed, and the tasks that are there stay so.
pub create_task-IsStored :
    (p : Platform) (now user : ℕ) (request : CreateTaskRequest) (db db' : Db) (t : Task)
    → All IsStored db.tasks
    → create_task p now user request db ≡ ok (db', t)
    → All IsStored db'.tasks
unfolding create_task new_row
create_task-IsStored p now user request db db' t stored h =
    let (valid, h1) =
      >>-eq-ok
        (validate_task_fields request.title request.description request.due_at
          request.scheduled_start request.scheduled_end request.recurrence request.parent_task_id)
        _ h in
    let (labels, _, h2) = >>=-eq-ok (validate_labels p request.labels) _ h1 in
    let (_, h3) =
      >>-eq-ok
        (fail_if (recurs request.recurrence && is_completed request.status)
          (validation (literal "a recurring task cannot be created as completed")))
        _ h2 in
    let (_, h4) =
      >>-eq-ok (validate_task_relationships user request.project_id request.parent_task_id db) _
        h3 in
    let (position, _, h5) = >>=-eq-ok (next_task_position user db) _ h4 in
    let row = new_row db.next_id now user request labels position in
    let (inserted, inserts, h6) = >>=-eq-ok (insert_task p now row db) _ h5 in
    let (synced, syncs, h7) =
      >>=-eq-ok (sync_task_calendar_event p now user row.task (ensure_labels user labels inserted))
        _ h6 in
    let made : Db × Task = (synced, row.task) in
    let pair : made ≡ (db', t) = cc h7 in
    let v =
      (validate_task_fields_iff request.title request.description request.due_at
          request.scheduled_start request.scheduled_end request.recurrence request.parent_task_id).0
        valid in
    let tasks : db'.tasks ≡ db.tasks ++ row ∷ [] =
      ap (λ r. r.0.tasks) (sym pair)
      ∙ sync-tasks p now user row.task (ensure_labels user labels inserted) synced syncs
      ∙ labelled-tasks user labels inserted
      ∙ insert_new-eq-ok p now row db inserted refl inserts in
    rw tasks (
      All-append IsStored db.tasks (row ∷ []) stored
        (new_row-IsStored db.next_id now user request labels position v, tt))
