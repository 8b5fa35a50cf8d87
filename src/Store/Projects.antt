-- ===== src/Store/Projects.antt =====
-- The operations on projects of apps/api/src/store.rs.
pub mod Stale
pub mod Examples
use prosepect.Base.{
  ℕ, zero, suc, Option, none, some, Bool, true, ◌&&◌, ◌||◌, List, [], ◌∷◌, ◌++◌, ◌==◌, ltb,
  if◌then◌else◌, option_test, nat_eq, find?, retain, update_where, length, Text, trim, is_empty,
}
use prosepect.Base.Int.{ℤ, below_one, is_version}
use prosepect.Error.{
  AppResult, ok, err, AppError, validation, conflict, changed_since, not_found, literal, fail_if,
  ◌>>=◌, ◌>>◌,
}
use prosepect.Tasks.{RecurringTaskState, is_completed}
use prosepect.Store.{Db, next_version}

pub data ProjectStatus : Type 0 where
  planned active paused completed archived : ProjectStatus

-- A row of `projects`.
pub record ProjectRow : Type 0 where
  pub id : ℕ
  pub user_id : ℕ
  pub name : Text
  pub outcome : Text
  pub target_date : Option ℕ
  pub status : ProjectStatus
  pub created_at : ℕ
  pub updated_at : ℕ
  pub version : ℕ

pub record Project : Type 0 where
  pub row : ProjectRow
  pub total_tasks : ℕ
  pub completed_tasks : ℕ

pub record CreateProjectRequest : Type 0 where
  pub name : Text
  pub outcome : Text
  pub target_date : Option ℕ
  pub status : ProjectStatus

pub record UpdateProjectRequest : Type 0 where
  pub fields : CreateProjectRequest
  pub expected_version : ℤ

-- The tables, with the columns of the projects that the other operations do not read.
pub record Portfolio : Type 0 where
  pub db : Db
  pub rows : List ProjectRow

abbrev pub name_error : AppError
name_error = validation (literal "project name must contain between 1 and 120 characters")

abbrev pub outcome_error : AppError
outcome_error = validation (literal "project outcome cannot exceed 2000 characters")

unfoldable pub validate_project_fields : Text → Text → AppResult (Unit {0})
validate_project_fields name outcome = do
  fail_if (is_empty (trim name) || ltb 120 (length (trim name))) name_error
  fail_if (ltb 2_000 (length outcome)) outcome_error

abbrev pub is_project : ℕ → ℕ → ProjectRow → Bool
is_project user id r = r.id == id && r.user_id == user

abbrev pub is_task_of : ℕ → ℕ → RecurringTaskState → Bool
is_task_of user project t = t.user_id == user && option_test t.task.project_id (some project)

abbrev pub is_finished : RecurringTaskState → Bool
is_finished t = is_completed t.task.status

-- The project with the counts of its tasks.
unfoldable pub with_counts : List RecurringTaskState → ProjectRow → Project
with_counts tasks r = record {
  row = r;
  total_tasks = length (retain (is_task_of r.user_id r.id) tasks);
  completed_tasks = length (retain is_finished (retain (is_task_of r.user_id r.id) tasks));
}

abbrev pub version_error : AppError
version_error = validation (literal "expected_version must be greater than zero")

-- The error where no row had the version: what the row's version is now.
abbrev pub project_changed {ℓ} : {A : Type ℓ} → ℕ → ℕ → ℤ → Portfolio → AppResult A
project_changed user id expected w = elim (find? (is_project user id) w.rows) [
  | some r ↦ err (conflict (changed_since "project" expected r.version))
  | none ↦ err (not_found "project")
]

abbrev pub is_current_project : ℕ → ℕ → ℤ → ProjectRow → Bool
is_current_project user id expected r = is_project user id r && is_version expected r.version

abbrev pub rewrite_project : ℕ → CreateProjectRequest → ℕ → ProjectRow → ProjectRow
rewrite_project now request version r = record r {
  name = trim request.name;
  outcome = trim request.outcome;
  target_date = request.target_date;
  status = request.status;
  updated_at = now;
  version = version;
}

abbrev pub new_project : ℕ → ℕ → ℕ → CreateProjectRequest → ProjectRow
new_project id now user request = record {
  id = id;
  user_id = user;
  name = trim request.name;
  outcome = trim request.outcome;
  target_date = request.target_date;
  status = request.status;
  created_at = now;
  updated_at = now;
  version = 1;
}

module _ (now user : ℕ) where
  unfoldable pub create_project : CreateProjectRequest → Portfolio → AppResult (Portfolio × Project)
  unfolding validate_project_fields
  create_project request w = do
    validate_project_fields request.name request.outcome
    ok (
      record {
        db = record w.db {
          next_id = suc w.db.next_id;
          projects = w.db.projects ++ (w.db.next_id, user) ∷ [];
        };
        rows = w.rows ++ new_project w.db.next_id now user request ∷ [];
      },
      record {
        row = new_project w.db.next_id now user request;
        total_tasks = 0;
        completed_tasks = 0;
      },
    )

  unfoldable pub update_project :
      ℕ → UpdateProjectRequest → Portfolio → AppResult (Portfolio × Project)
  unfolding validate_project_fields with_counts
  update_project id request w = do
    validate_project_fields request.fields.name request.fields.outcome
    fail_if (below_one request.expected_version) version_error
    elim (find? (is_current_project user id request.expected_version) w.rows) [
      | none ↦ project_changed user id request.expected_version w
      | some r ↦ next_version r.version >>= λ version. ok (
        record w {
          rows =
              update_where (is_current_project user id request.expected_version)
                (rewrite_project now request.fields version) w.rows;
        },
        with_counts w.db.tasks (rewrite_project now request.fields version r),
      )
    ]

abbrev pub is_before_project : Option ℕ → ProjectRow → Bool
is_before_project none r = true
is_before_project (some cursor) r = ltb r.id cursor

-- `ORDER BY p.id DESC`
abbrev pub insert_project : ProjectRow → List ProjectRow → List ProjectRow
insert_project r [] = r ∷ []
insert_project r (s ∷ ss) =
    let rest = insert_project r ss in if ltb s.id r.id then r ∷ s ∷ ss else s ∷ rest

abbrev pub sort_projects : List ProjectRow → List ProjectRow
sort_projects [] = []
sort_projects (r ∷ rs) = insert_project r (sort_projects rs)

abbrev pub take_projects : ℕ → List ProjectRow → List ProjectRow
take_projects zero rs = []
take_projects (suc n) [] = []
take_projects (suc n) (r ∷ rs) = r ∷ take_projects n rs

-- `Vec::pop`, for what it leaves.
abbrev pub pop_project : List ProjectRow → List ProjectRow
pop_project [] = []
pop_project (r ∷ []) = []
pop_project (r ∷ s ∷ ss) = r ∷ pop_project (s ∷ ss)

abbrev pub last_project : List ProjectRow → Option ℕ
last_project [] = none
last_project (r ∷ []) = some r.id
last_project (r ∷ s ∷ ss) = last_project (s ∷ ss)

pub record ProjectPage : Type 0 where
  pub items : List Project
  pub next_cursor : Option ℕ

abbrev pub all_with_counts : List RecurringTaskState → List ProjectRow → List Project
all_with_counts tasks [] = []
all_with_counts tasks (r ∷ rs) = with_counts tasks r ∷ all_with_counts tasks rs

unfoldable pub list_projects : ℕ → Option ℕ → ℕ → Portfolio → ProjectPage
unfolding with_counts
list_projects user cursor limit w =
    let rows = take_projects (suc limit) (
      retain (is_before_project cursor)
        (sort_projects (retain (λ (r : ProjectRow). r.user_id == user) w.rows))) in
    if ltb limit (length rows)
    then record {
      items = all_with_counts w.db.tasks (pop_project rows);
      next_cursor = last_project (pop_project rows);
    }
    else record { items = all_with_counts w.db.tasks rows; next_cursor = none }
