-- ===== src/Store/Reach.antt =====
-- The operations on tasks of apps/api/src/store.rs as steps of the database, by any users in any
-- order. Each takes the lock of the user's tasks and is one transaction.
use prosepect.Base.{
  ℕ, suc, ◌+◌, ◌*◌, ◌≡◌, Option, some, Bool, true, false, ◌&&◌, List, [], ◌∷◌, All, All-imp, not,
  ◌==◌, length, retain, if◌then◌else◌,
}
use prosepect.Base.Int.{ℤ}
use prosepect.Error.{ok, fail_if, >>-eq-ok}
use prosepect.Tasks.{
  Platform, Task, RecurringTaskState, CreateTaskRequest, UpdateTaskRequest, RecurrenceEditScope,
}
use prosepect.Store.{Db, is_task}
use prosepect.Store.Blocks.{remove_task_calendar_event}
use prosepect.Store.Tasks.{
  create_task, update_task_scoped, delete_task, reorder_tasks, set_positions, move_to, contains,
  has_duplicates, is_owned, duplicates_error, missing_error, foreign_error,
}
use prosepect.Store.Frame.{remove-tasks}
use prosepect.Store.Order.{place, set_positions-map, All-map}
use prosepect.Store.Deletion.{delete-drops}
use prosepect.Store.Stored.{IsStored, drop-IsStored}
use prosepect.Store.Invariant.{create_task-IsStored, update_task_scoped-IsStored}

pub data Step (p : Platform) (db db' : Db) : Type 0 where
  create :
      (now user : ℕ) (request : CreateTaskRequest) (t : Task)
      → create_task p now user request db ≡ ok (db', t)
      → Step p db db'
  update :
      (now user id : ℕ) (request : UpdateTaskRequest) (scope : Option RecurrenceEditScope)
      (t : Task)
      → update_task_scoped p now user id request scope db ≡ ok (db', t)
      → Step p db db'
  delete :
      (now user id : ℕ) (expected : ℤ)
      → delete_task p now user id expected db ≡ ok db'
      → Step p db db'
  reorder : (user : ℕ) (ids : List ℕ) → reorder_tasks user ids db ≡ ok db' → Step p db db'

pub data Steps (p : Platform) (start : Db) : Db → Type 0 where
  here : Steps p start start
  next : {db db' : Db} → Steps p start db → Step p db db' → Steps p start db'

move-IsStored : (position : ℕ) (t : RecurringTaskState) → IsStored t → IsStored (move_to position t)
move-IsStored position t s = record {
  valid = s.valid;
  finished = s.finished;
  versioned = s.versioned;
  template = s.template;
}

place-IsStored :
    (user k : ℕ) (ids : List ℕ) (t : RecurringTaskState)
    → IsStored t
    → IsStored (place user k ids t)
unfolding place
place-IsStored user k [] t s = s
place-IsStored user k (id ∷ ids) t s =
    place-IsStored user (suc k) ids (if is_task user id t then move_to ((k + 1) * 1024) t else t)
      (go (is_task user id t))
  where
    go : (b : Bool) → IsStored (if b then move_to ((k + 1) * 1024) t else t)
    go true = move-IsStored ((k + 1) * 1024) t s
    go false = s

reorder-IsStored :
    (user : ℕ) (ids : List ℕ) (db db' : Db)
    → reorder_tasks user ids db ≡ ok db'
    → All IsStored db.tasks
    → All IsStored db'.tasks
unfolding reorder_tasks
reorder-IsStored user ids db db' h stored =
    let (_, h1) = >>-eq-ok (fail_if (has_duplicates ids) duplicates_error) _ h in
    let (_, h2) =
      >>-eq-ok
        (fail_if (not (length (retain (is_owned user) db.tasks) == length ids)) missing_error) _
        h1 in
    let (_, h3) =
      >>-eq-ok
        (fail_if
          (not (
            length (retain (λ t. is_owned user t && contains t.task.id ids) db.tasks)
            == length (retain (is_owned user) db.tasks)))
          foreign_error)
        _ h2 in
    let same : (record db { tasks = set_positions user 0 ids db.tasks }) ≡ db' = cc h3 in
    rw (← same, set_positions-map user 0 ids db.tasks)
      (All-map IsStored (place user 0 ids) db.tasks (
        All-imp IsStored (λ t. IsStored (place user 0 ids t)) db.tasks
          (λ t s. place-IsStored user 0 ids t s) stored))

delete-IsStored :
    (p : Platform) (now user id : ℕ) (expected : ℤ) (db db' : Db)
    → delete_task p now user id expected db ≡ ok db'
    → All IsStored db.tasks
    → All IsStored db'.tasks
delete-IsStored p now user id expected db db' h stored =
    let (_, _, same) = delete-drops p now user id expected db db' h in
    rw (← same) (
      drop-IsStored p now user id (remove_task_calendar_event p now user id db)
        (rw (remove-tasks p now user id db) stored))

module _ (p : Platform) (chrono : (a b c : ℕ) → p.checked_add_signed a b ≡ some c → c ≡ a + b) where
  Step-IsStored : (db db' : Db) → Step p db db' → All IsStored db.tasks → All IsStored db'.tasks
  Step-IsStored db db' (create now user request t h) stored =
      create_task-IsStored p now user request db db' t stored h
  Step-IsStored db db' (update now user id request scope t h) stored =
      update_task_scoped-IsStored p chrono now user id request scope db db' t stored h
  Step-IsStored db db' (delete now user id expected h) stored =
      delete-IsStored p now user id expected db db' h stored
  Step-IsStored db db' (reorder user ids h) stored = reorder-IsStored user ids db db' h stored

  -- Whatever sequence of creations, edits, deletions and reorderings of tasks runs on a database whose
  -- tasks are well-formed, every task is well-formed afterwards, where the addition of chrono is exact
  -- in its range.
  pub Steps-IsStored :
      (start db : Db) → All IsStored start.tasks → Steps p start db → All IsStored db.tasks
  Steps-IsStored start db stored here = stored
  Steps-IsStored start db stored (next {db = before} steps step) =
      Step-IsStored before db step (Steps-IsStored start before stored steps)
