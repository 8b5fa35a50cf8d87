-- ===== src/Tasks.antt =====
-- Tasks: the types of apps/api/src/models.rs and apps/api/src/task_recurrence.rs, and what the
-- operations on them take from outside the repository.
pub mod Validate
pub mod Labels
pub mod Recurrence
pub mod Examples
use prosepect.Base.{ℕ, ◌+◌, ◌<◌, ◌≡◌, Option, none, some, Bool, true, false, List, Text}
use prosepect.Base.Int.{ℤ}

pub data TaskStatus : Type 0 where
  todo in_progress blocked completed : TaskStatus

pub data TaskPriority : Type 0 where
  low medium high urgent : TaskPriority

pub data TaskRecurrence : Type 0 where
  never daily weekly monthly yearly : TaskRecurrence

abbrev pub is_completed : TaskStatus → Bool
is_completed completed = true
is_completed _ = false

-- `recurrence != TaskRecurrence::None`
abbrev pub recurs : TaskRecurrence → Bool
recurs never = false
recurs _ = true

abbrev pub same_recurrence : TaskRecurrence → TaskRecurrence → Bool
same_recurrence never never = true
same_recurrence daily daily = true
same_recurrence weekly weekly = true
same_recurrence monthly monthly = true
same_recurrence yearly yearly = true
same_recurrence _ _ = false

pub record Task : Type 0 where
  pub id : ℕ
  pub project_id : Option ℕ
  pub parent_task_id : Option ℕ
  pub title : Text
  pub description : Text
  pub due_at : Option ℕ
  pub scheduled_start : Option ℕ
  pub scheduled_end : Option ℕ
  pub status : TaskStatus
  pub priority : TaskPriority
  pub recurrence : TaskRecurrence
  pub labels : List Text
  pub remind_at : Option ℕ
  pub position : ℕ
  pub completed_at : Option ℕ
  pub created_at : ℕ
  pub updated_at : ℕ
  pub version : ℕ

pub record CreateTaskRequest : Type 0 where
  pub project_id : Option ℕ
  pub parent_task_id : Option ℕ
  pub title : Text
  pub description : Text
  pub due_at : Option ℕ
  pub scheduled_start : Option ℕ
  pub scheduled_end : Option ℕ
  pub status : TaskStatus
  pub priority : TaskPriority
  pub recurrence : TaskRecurrence
  pub labels : List Text
  pub remind_at : Option ℕ

pub record UpdateTaskRequest : Type 0 where
  pub project_id : Option ℕ
  pub parent_task_id : Option ℕ
  pub title : Text
  pub description : Text
  pub due_at : Option ℕ
  pub scheduled_start : Option ℕ
  pub scheduled_end : Option ℕ
  pub status : TaskStatus
  pub priority : TaskPriority
  pub recurrence : TaskRecurrence
  pub labels : List Text
  pub remind_at : Option ℕ
  pub expected_version : ℤ

pub data RecurrenceEditScope : Type 0 where
  this_occurrence this_and_future : RecurrenceEditScope

pub record RecurrenceDefaults : Type 0 where
  pub title : Text
  pub description : Text
  pub due_at : ℕ
  pub scheduled_start : Option ℕ
  pub scheduled_end : Option ℕ
  pub priority : TaskPriority
  pub recurrence : TaskRecurrence
  pub labels : List Text
  pub remind_at : Option ℕ

-- A row of `tasks`: the task with its template and with the columns that the API does not show.
pub record RecurringTaskState : Type 0 where
  pub task : Task
  pub recurrence_defaults : Option RecurrenceDefaults
  pub recurrence_project_id : Option ℕ
  pub user_id : ℕ
  pub recurrence_source_id : Option ℕ

-- What the operations take from outside the repository: Unicode's lower case, chrono's arithmetic
-- (`none` where the result is out of range), and the text of an identifier and of a number.
pub record Platform : Type 0 where
  pub to_lowercase : Text → Text
  pub checked_add_signed : ℕ → ℕ → Option ℕ
  pub checked_add_months : ℕ → ℕ → Option ℕ
  pub uuid_text : ℕ → Text
  pub decimal : ℕ → Text
