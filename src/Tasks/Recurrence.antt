-- ===== src/Tasks/Recurrence.antt =====
-- apps/api/src/task_recurrence.rs, and next_recurrence_date of apps/api/src/store.rs: the template
-- of a recurring task with a one-occurrence exception, and the task that follows it.
use prosepect.Base.{ℕ, ◌*◌, ◌≡◌, Option, none, some, not, ◌&&◌, ◌||◌, arith, if◌then◌else◌}
use prosepect.Base.Int.{is_version}
use prosepect.Error.{
  AppResult, ok, validation, conflict, literal, changed_since, fail_if, ok_or, ◌>>=◌, ◌>>◌,
}
use prosepect.Tasks.{
  TaskRecurrence, never, daily, weekly, monthly, yearly, recurs, same_recurrence, is_completed,
  Task, UpdateTaskRequest, RecurrenceEditScope, this_occurrence, this_and_future,
  RecurrenceDefaults, RecurringTaskState, Platform,
}
use prosepect.Tasks.Validate.{is_some}

-- `RecurrenceDefaults::from_task`
unfoldable pub from_task : Task → AppResult RecurrenceDefaults
from_task t = do
  due ← ok_or t.due_at (validation (literal "a recurring task must have a deadline"))
  ok (record {
    title = t.title;
    description = t.description;
    due_at = due;
    scheduled_start = t.scheduled_start;
    scheduled_end = t.scheduled_end;
    priority = t.priority;
    recurrence = t.recurrence;
    labels = t.labels;
    remind_at = t.remind_at;
  })

-- The first edit of one occurrence keeps what the task was as the template; a later one keeps the
-- template that is there.
unfoldable pub keep_template :
    Option RecurrenceDefaults → RecurringTaskState → AppResult RecurringTaskState
keep_template (some d) s = ok s
keep_template none s = do
  defaults ← from_task s.task
  ok (record s { recurrence_defaults = some defaults; recurrence_project_id = s.task.project_id })

abbrev pub forget_template : RecurringTaskState → RecurringTaskState
forget_template s = record s { recurrence_defaults = none; recurrence_project_id = none }

unfoldable pub apply_scope :
    Option RecurrenceEditScope
    → UpdateTaskRequest
    → RecurringTaskState
    → AppResult RecurringTaskState
apply_scope (some this_occurrence) request s = do
  fail_if
      (not (recurs s.task.recurrence) || not (same_recurrence request.recurrence s.task.recurrence))
      (validation (literal "Choose this and future occurrences to change the repeat rule."))
  keep_template s.recurrence_defaults s
apply_scope (some this_and_future) request s = ok (forget_template s)
apply_scope none request s = ok (
    if not (same_recurrence request.recurrence s.task.recurrence) || not (recurs request.recurrence)
    then forget_template s
    else s)

-- `RecurringTaskState::prepare`
unfoldable pub prepare :
    UpdateTaskRequest
    → Option RecurrenceEditScope
    → RecurringTaskState
    → AppResult RecurringTaskState
unfolding keep_template apply_scope from_task
prepare request scope s = do
  fail_if (not (is_version request.expected_version s.task.version))
      (conflict (changed_since "task" request.expected_version s.task.version))
  fail_if (is_some scope && is_completed s.task.status)
      (validation (literal "Choose an unfinished task to edit recurring occurrences."))
  apply_scope scope request s

unfoldable pub from_template : Option RecurrenceDefaults → Option ℕ → Task → Task
from_template none project t = t
from_template (some d) project t = record t {
  project_id = project;
  title = d.title;
  description = d.description;
  due_at = some d.due_at;
  scheduled_start = d.scheduled_start;
  scheduled_end = d.scheduled_end;
  priority = d.priority;
  recurrence = d.recurrence;
  labels = d.labels;
  remind_at = d.remind_at;
}

-- `RecurringTaskState::successor_source`
unfoldable pub successor_source : RecurringTaskState → Task
unfolding from_template
successor_source s = from_template s.recurrence_defaults s.recurrence_project_id s.task

-- Microseconds in a day, `TimeDelta::days(1)`.
abbrev pub day : ℕ
day = 86_400 * 1_000_000

unfoldable pub next_recurrence_date : Platform → ℕ → TaskRecurrence → AppResult ℕ
next_recurrence_date p due_at recurrence =
    let next : Option ℕ = elim recurrence [
      | never ↦ none
      | daily ↦ p.checked_add_signed due_at day
      | weekly ↦ p.checked_add_signed due_at (7 * day)
      | monthly ↦ p.checked_add_months due_at 1
      | yearly ↦ p.checked_add_months due_at 12
    ] in
    ok_or next (validation (literal "recurrence date is out of range"))

-- Editing one occurrence does not change what follows the series: the successor of the edited row,
-- whatever the request writes into the task itself, has the fields that it would have had before.
pub prepare_this_occurrence :
    (request : UpdateTaskRequest) (s t : RecurringTaskState) (edited : Task)
    → prepare request (some this_occurrence) s ≡ ok t
    → let before = successor_source s in
      let later = successor_source (record t { task = edited }) in
      (later.project_id ≡ before.project_id)
      × (later.title ≡ before.title)
      × (later.description ≡ before.description)
      × (later.due_at ≡ before.due_at)
      × (later.scheduled_start ≡ before.scheduled_start)
      × (later.scheduled_end ≡ before.scheduled_end)
      × (later.recurrence ≡ before.recurrence)
      × (later.labels ≡ before.labels)
      × (later.remind_at ≡ before.remind_at)
      × (later.priority ≡ before.priority)
unfolding prepare successor_source
prepare_this_occurrence request s t edited h = ground arith
