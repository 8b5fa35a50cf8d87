-- ===== src/Store/Pages.antt =====
-- `list_tasks` of apps/api/src/store.rs: a page of the tasks, and the walk over all pages.
pub mod Walk
use prosepect.Base.{
  ℕ, zero, suc, ◌+◌, ◌≡◌, Option, none, some, Bool, true, false, ◌&&◌, List, [], ◌∷◌, ◌++◌, ◌==◌,
  ltb, leb, if◌then◌else◌, option_test, nat_eq, retain, length,
}
use prosepect.Base.Int.{ℤ, pos, negsuc}
use prosepect.Tasks.{Task, RecurringTaskState}
use prosepect.Store.{Db}

abbrev pub of_project : Option ℕ → Task → Bool
of_project none t = true
of_project (some id) t = option_test t.project_id (some id)

abbrev pub is_before : Option ℕ → Task → Bool
is_before none t = true
is_before (some cursor) t = ltb t.id cursor

-- `ORDER BY id DESC`
abbrev pub insert_by_id : Task → List Task → List Task
insert_by_id t [] = t ∷ []
insert_by_id t (u ∷ us) =
    let rest = insert_by_id t us in if ltb u.id t.id then t ∷ u ∷ us else u ∷ rest

abbrev pub sort_by_id : List Task → List Task
sort_by_id [] = []
sort_by_id (t ∷ ts) = insert_by_id t (sort_by_id ts)

abbrev pub tasks_of_user : ℕ → List RecurringTaskState → List Task
tasks_of_user user [] = []
tasks_of_user user (t ∷ ts) =
    let rest = tasks_of_user user ts in if t.user_id == user then t.task ∷ rest else rest

-- The rows that the query is about, without the cursor.
unfoldable pub tasks_listed : ℕ → Option ℕ → Db → List Task
tasks_listed user project db =
    sort_by_id (retain (of_project project) (tasks_of_user user db.tasks))

abbrev pub take : ℕ → List Task → List Task
take zero ts = []
take (suc n) [] = []
take (suc n) (t ∷ ts) = t ∷ take n ts

-- `Vec::pop`, for what it leaves.
abbrev pub pop : List Task → List Task
pop [] = []
pop (t ∷ []) = []
pop (t ∷ u ∷ us) = t ∷ pop (u ∷ us)

abbrev pub last_id : List Task → Option ℕ
last_id [] = none
last_id (t ∷ []) = some t.id
last_id (t ∷ u ∷ us) = last_id (u ∷ us)

pub record TaskPage : Type 0 where
  pub items : List Task
  pub next_cursor : Option ℕ

-- The page of the rows that `LIMIT limit + 1` leaves.
unfoldable pub page_of : ℕ → List Task → TaskPage
page_of limit rows =
    if ltb limit (length rows)
    then record { items = pop rows; next_cursor = last_id (pop rows) }
    else record { items = rows; next_cursor = none }

unfoldable pub list_tasks : ℕ → Option ℕ → Option ℕ → ℕ → Db → TaskPage
unfolding page_of tasks_listed
list_tasks user project cursor limit db =
    page_of limit (take (suc limit) (retain (is_before cursor) (tasks_listed user project db)))

-- `TaskListQuery::normalized_limit`: 50 unless the request says otherwise, and from 1 to 100.
unfoldable pub normalized_limit : Option ℤ → ℕ
normalized_limit none = 50
normalized_limit (some (pos n)) = if ltb n 1 then 1 else if ltb 100 n then 100 else n
normalized_limit (some (negsuc n)) = 1
