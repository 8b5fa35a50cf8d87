-- ===== src/Review.antt =====
-- The daily plan and the daily review: the tables that apps/api/src/daily_review_store.rs and the
-- daily plan of apps/api/src/store.rs read and write, with the triggers on them.
pub mod Settings
pub mod Plan
pub mod Complete
pub mod Order
pub mod Rewritten
mod Examples
use prosepect.Base.{
  ℕ, suc, ◌+◌, ◌≡◌, Option, none, some, Bool, true, false, not, ◌&&◌, List, [], ◌∷◌, ◌++◌, ◌==◌,
  leb, if◌then◌else◌, any, retain, delete_where, update_where, find?,
}
use prosepect.Tasks.{Task, RecurringTaskState, is_completed}
use prosepect.Jobs.{SyncJob}
use prosepect.Store.{Policy, TaskConnection, is_task}

pub data ThemePreference : Type 0 where
  system light dark : ThemePreference

-- A row of `user_settings`.
pub record UserSettings : Type 0 where
  pub user_id : ℕ
  pub theme : ThemePreference
  pub automatic_daily_review : Bool
  pub sync_conflict_policy : Policy
  pub sidebar_visible : Bool
  pub updated_at : ℕ
  pub version : ℕ

-- A row of `daily_focus_tasks`. A date is the number of its day.
pub record FocusTask : Type 0 where
  pub user_id : ℕ
  pub focus_date : ℕ
  pub task_id : ℕ
  pub position : ℕ

pub data DailyReviewStatus : Type 0 where
  opened completed : DailyReviewStatus

-- A row of `daily_reviews`.
pub record DailyReviewRow : Type 0 where
  pub id : ℕ
  pub user_id : ℕ
  pub review_date : ℕ
  pub status : DailyReviewStatus
  pub started_at : ℕ
  pub completed_at : Option ℕ
  pub version : ℕ

-- The scopes of the revisions that a deletion with Undo compares.
pub data Scope : Type 0 where
  review_selection : Scope
  focus_on : ℕ → Scope

pub record GuardRevision : Type 0 where
  pub user_id : ℕ
  pub scope : Scope
  pub revision : ℕ

pub record Desk : Type 0 where
  pub next_id : ℕ
  pub users : List ℕ
  pub settings : List UserSettings
  pub tasks : List RecurringTaskState
  pub focus : List FocusTask
  pub reviews : List DailyReviewRow
  pub revisions : List GuardRevision
  pub task_connections : List TaskConnection
  pub jobs : List SyncJob

abbrev pub same_scope : Scope → Scope → Bool
same_scope review_selection review_selection = true
same_scope (focus_on a) (focus_on b) = a == b
same_scope _ _ = false

abbrev pub is_revision : ℕ → Scope → GuardRevision → Bool
is_revision user scope r = r.user_id == user && same_scope r.scope scope

abbrev pub bump_row : GuardRevision → GuardRevision
bump_row r = record r { revision = r.revision + 1 }

-- `INSERT ... ON CONFLICT DO UPDATE SET revision = revision + 1`
unfoldable pub bump : ℕ → Scope → List GuardRevision → List GuardRevision
bump user scope rs =
    if any (is_revision user scope) rs
    then update_where (is_revision user scope) bump_row rs
    else rs ++ record { user_id = user; scope = scope; revision = 1 } ∷ []

abbrev pub is_focus_on : ℕ → ℕ → FocusTask → Bool
is_focus_on user date f = f.user_id == user && f.focus_date == date

-- A trigger runs for each row.
unfoldable pub bump_each : ℕ → ℕ → List FocusTask → List GuardRevision → List GuardRevision
bump_each user date [] rs = rs
bump_each user date (f ∷ fs) rs = bump_each user date fs (bump user (focus_on date) rs)

-- `DELETE FROM daily_focus_tasks WHERE user_id = $1 AND focus_date = $2`
unfoldable pub clear_focus : ℕ → ℕ → Desk → Desk
unfolding bump_each
clear_focus user date d = record d {
  focus = delete_where (is_focus_on user date) d.focus;
  revisions = bump_each user date (retain (is_focus_on user date) d.focus) d.revisions;
}

-- The loop over the identifiers, from the given index.
unfoldable pub insert_focus : ℕ → ℕ → ℕ → List ℕ → Desk → Desk
insert_focus user date index [] d = d
insert_focus user date index (task ∷ tasks) d = insert_focus user date (suc index) tasks (record d {
  focus =
      d.focus
      ++ record { user_id = user; focus_date = date; task_id = task; position = index + 1 } ∷ [];
  revisions = bump user (focus_on date) d.revisions;
})

-- `ORDER BY position`
abbrev pub insert_by_position : FocusTask → List FocusTask → List FocusTask
insert_by_position f [] = f ∷ []
insert_by_position f (g ∷ gs) =
    let rest = insert_by_position f gs in if leb f.position g.position then f ∷ g ∷ gs else g ∷ rest

abbrev pub sort_by_position : List FocusTask → List FocusTask
sort_by_position [] = []
sort_by_position (f ∷ fs) = insert_by_position f (sort_by_position fs)

unfoldable pub focus_rows : ℕ → ℕ → Desk → List FocusTask
focus_rows user date d = sort_by_position (retain (is_focus_on user date) d.focus)

abbrev pub cons_some : Option RecurringTaskState → List RecurringTaskState → List RecurringTaskState
cons_some none ts = ts
cons_some (some t) ts = t ∷ ts

-- The JOIN of `daily_focus_tasks` with `tasks`.
abbrev pub join : ℕ → List RecurringTaskState → List FocusTask → List RecurringTaskState
join user tasks [] = []
join user tasks (f ∷ fs) = cons_some (find? (is_task user f.task_id) tasks) (join user tasks fs)

abbrev pub is_unfinished : RecurringTaskState → Bool
is_unfinished t = not (is_completed t.task.status)

abbrev pub tasks_of : List RecurringTaskState → List Task
tasks_of [] = []
tasks_of (t ∷ ts) = t.task ∷ tasks_of ts
