-- ===== src/Review/Plan.antt =====
-- `daily_plan` and `update_daily_focus` of apps/api/src/store.rs.
use prosepect.Base.{ℕ, Bool, not, ◌&&◌, List, ◌==◌, ltb, any, length, retain}
use prosepect.Error.{AppResult, ok, AppError, validation, unauthorized, literal, fail_if, ◌>>◌}
use prosepect.Tasks.{Task, RecurringTaskState}
use prosepect.Store.Tasks.{contains, has_duplicates}
use prosepect.Review.{
  Desk, focus_on, bump, clear_focus, insert_focus, focus_rows, join, tasks_of, is_unfinished,
}

abbrev pub is_user : ℕ → ℕ → Bool
is_user user id = id == user

unfoldable pub daily_plan : ℕ → ℕ → Desk → List Task
unfolding focus_rows
daily_plan user date d = tasks_of (join user d.tasks (focus_rows user date d))

-- `WHERE user_id = $1 AND id = ANY($2) AND status <> 'completed'`
abbrev pub is_choosable : ℕ → List ℕ → RecurringTaskState → Bool
is_choosable user ids t = t.user_id == user && contains t.task.id ids && is_unfinished t

abbrev pub many_error : AppError
many_error = validation (literal "a daily plan cannot contain more than three focus tasks")

abbrev pub repeated_error : AppError
repeated_error = validation (literal "focus task identifiers must be unique")

abbrev pub choice_error : AppError
choice_error = validation (literal "focus tasks must reference the user's incomplete tasks")

-- The statements of the transaction, after its checks.
unfoldable pub replace_focus : ℕ → ℕ → List ℕ → Desk → Desk
unfolding clear_focus insert_focus
replace_focus user date ids d = insert_focus user date 0 ids (clear_focus user date d)

unfoldable pub update_daily_focus : ℕ → ℕ → List ℕ → Desk → AppResult (Desk × List Task)
unfolding replace_focus daily_plan bump
update_daily_focus user date ids d = do
  fail_if (ltb 3 (length ids)) many_error
  fail_if (has_duplicates ids) repeated_error
  fail_if (not (any (is_user user) d.users)) unauthorized
  fail_if (not (length (retain (is_choosable user ids) d.tasks) == length ids)) choice_error
  let planned =
      replace_focus user date ids (record d { revisions = bump user (focus_on date) d.revisions })
  ok (planned, daily_plan user date planned)
