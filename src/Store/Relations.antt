-- ===== src/Store/Relations.antt =====
-- apps/api/src/store.rs: what a task may refer to. validate_task_relationships is for a new or an
-- edited task, validate_task_update_relationships for an edited one.
use prosepect.Base.{
  ℕ, zero, suc, Option, none, some, Bool, true, false, not, ◌&&◌, ◌||◌, List, option_test, nat_eq,
  ◌==◌, any, find?, length,
}
use prosepect.Error.{
  AppResult, ok, AppError, validation, not_found, literal, ok_or, fail_if, ◌>>=◌, ◌>>◌,
}
use prosepect.Tasks.{TaskRecurrence, recurs, RecurringTaskState}
use prosepect.Store.{Db, is_task}

abbrev pub is_subtask : ℕ → ℕ → RecurringTaskState → Bool
is_subtask user id t = option_test t.task.parent_task_id (some id) && t.user_id == user

unfoldable pub has_subtasks : ℕ → ℕ → List RecurringTaskState → Bool
has_subtasks user id rows = any (is_subtask user id) rows

-- Whether the chain of parents from `id` meets `target`. UNION drops a row that it has already, so
-- that the query visits each row once at most: `fuel` is the number of the rows.
unfoldable pub in_parent_chain : (fuel : ℕ) → List RecurringTaskState → ℕ → ℕ → ℕ → Bool
in_parent_chain zero rows user id target = false
in_parent_chain (suc fuel) rows user id target = elim (find? (is_task user id) rows) [
  | none ↦ false
  | some t ↦ t.task.id == target || elim t.task.parent_task_id [
    | none ↦ false
    | some parent ↦ in_parent_chain fuel rows user parent target
  ]
]

abbrev pub closes_cycle : ℕ → ℕ → Option ℕ → List RecurringTaskState → Bool
closes_cycle user id none rows = false
closes_cycle user id (some parent) rows = in_parent_chain (length rows) rows user parent id

abbrev pub recurring_parent_error : AppError
recurring_parent_error = validation (literal "a task with subtasks cannot recur")

abbrev pub moved_parent_error : AppError
moved_parent_error =
    validation (literal "a task with subtasks cannot change its project assignment")

abbrev pub cycle_error : AppError
cycle_error = validation (literal "parent_task_id would create a subtask cycle")

unfoldable pub validate_task_update_relationships :
    ℕ → ℕ → Option ℕ → Option ℕ → TaskRecurrence → Db → AppResult (Unit {0})
validate_task_update_relationships user id project parent recurrence db = do
  current ← ok_or (find? (is_task user id) db.tasks) (not_found "task")
  fail_if (recurs recurrence && has_subtasks user id db.tasks) recurring_parent_error
  fail_if (not (option_test current.task.project_id project) && has_subtasks user id db.tasks)
      moved_parent_error
  fail_if (closes_cycle user id parent db.tasks) cycle_error

abbrev pub owns_project : ℕ → Option ℕ → Db → Bool
owns_project user none db = true
owns_project user (some id) db = any (λ (i, owner). i == id && owner == user) db.projects

abbrev pub project_error : AppError
project_error = validation (literal "project_id must reference one of the user's projects")

abbrev pub parent_project_error : AppError
parent_project_error = validation (literal "parent task must belong to the same project")

abbrev pub parent_recurs_error : AppError
parent_recurs_error = validation (literal "a recurring task cannot have subtasks")

abbrev pub parent_error : AppError
parent_error = validation (literal "parent_task_id must reference one of the user's tasks")

unfoldable pub check_parent : ℕ → Option ℕ → Option ℕ → Db → AppResult (Unit {0})
check_parent user project none db = ok tt
check_parent user project (some id) db = do
  parent ← ok_or (find? (is_task user id) db.tasks) parent_error
  fail_if (not (option_test parent.task.project_id project)) parent_project_error
  fail_if (recurs parent.task.recurrence) parent_recurs_error

unfoldable pub validate_task_relationships : ℕ → Option ℕ → Option ℕ → Db → AppResult (Unit {0})
validate_task_relationships user project parent db = do
  fail_if (not (owns_project user project db)) project_error
  check_parent user project parent db
