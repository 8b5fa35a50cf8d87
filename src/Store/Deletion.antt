-- ===== src/Store/Deletion.antt =====
-- What becomes of the Google event of a task that is deleted: delete_task of apps/api/src/store.rs
-- against remove_next_occurrence_for_reopen of the same file.
use text.Mathlib.Text.{◌==◌ as str_eq}
use prosepect.Base.{
  Text, not, retain, ℕ, ◌≡◌, refl, subst, ◌∙◌, inl, inr, some, Bool, true, false, ◌&&◌, Bool-cases,
  Option-cases, nat_eq, ◌==◌, ==_refl, text_eq_refl, arith, List, [], ◌∷◌, ◌++◌, map, any, find?,
  delete_where, update_where, All, All-imp, All-update_where,
}
use prosepect.Base.Int.{ℤ, below_one}
use prosepect.Error.{ok, conflict, validation, literal, fail_if, fail_if-eq-ok, >>-eq-ok}
use prosepect.Jobs.{SyncJob, new_job, is_same_request}
use prosepect.Tasks.{Platform}
use prosepect.Store.{Db, CalendarEvent, EventRow, Mapping, is_task, forget_event, drop_event}
use prosepect.Store.Changes.{
  is_enabled_for, is_pending_change, insert_change_job, enqueue_google_tasks_change,
}
use prosepect.Store.Blocks.{
  event_key, mark_mapping, is_mapping_of, insert_job, is_google_calendar, mark_event_for_sync,
  task_calendar_event, remove_task_calendar_event,
}
use prosepect.Store.Relations.{has_subtasks}
use prosepect.Store.Series.{
  is_event_of_task, is_successor, forget_source, drop_row, drop_task, is_successor_of, is_todo,
  remove_next_occurrence_for_reopen,
}
use prosepect.Store.Tasks.{delete_task, is_current}
use prosepect.Store.Frame.{remove-tasks}
use prosepect.Store.Versions.{task_error-fails}

module _ {ℓ} {A : Type ℓ} where
  All-delete_where : (p : A → Bool) (xs : List A) → All (λ x. p x ≡ false) (delete_where p xs)
  All-delete_where p [] = tt
  All-delete_where p (x ∷ xs) = elim (Bool-cases (p x)) [
    | inl hit ↦ rw hit (All-delete_where p xs)
    | inr miss ↦ rw miss (miss, All-delete_where p xs)
  ]

  any-append : (p : A → Bool) (xs : List A) (x : A) → p x ≡ true → any p (xs ++ x ∷ []) ≡ true
  any-append p [] x h = ground arith
  any-append p (y ∷ xs) x h = ground (arith, any-append p xs x h)

  any-kept : (p : A → Bool) (xs : List A) (x : A) → any p xs ≡ true → any p (xs ++ x ∷ []) ≡ true
  any-kept p [] x h = cc
  any-kept p (y ∷ xs) x h = elim (Bool-cases (p y)) [
    | inl here ↦ rw here refl
    | inr there ↦ rw there (any-kept p xs x (rw there at h))
  ]

  -- An update that does not change a test leaves a row that passes it.
  any-update_where :
      (t p : A → Bool) (f : A → A) (xs : List A)
      → ((x : A) → t (f x) ≡ t x)
      → any t (update_where p f xs) ≡ any t xs
  any-update_where t p f [] keep = refl
  any-update_where t p f (x ∷ xs) keep = elim (Bool-cases (p x)) [
    | inl hit ↦ rw (hit, keep x, any-update_where t p f xs keep) refl
    | inr miss ↦ rw (miss, any-update_where t p f xs keep) refl
  ]

  map-update_same {κ} :
      {B : Type κ} (g : A → B) (p : A → Bool) (f : A → A) (xs : List A)
      → ((x : A) → g (f x) ≡ g x)
      → map g (update_where p f xs) ≡ map g xs
  map-update_same g p f [] keep = refl
  map-update_same g p f (x ∷ xs) keep = elim (Bool-cases (p x)) [
    | inl hit ↦ rw (hit, keep x, map-update_same g p f xs keep) refl
    | inr miss ↦ rw (miss, map-update_same g p f xs keep) refl
  ]

-- A mapping of the table with the identifier of `m` waits for the deletion of its Google event.
abbrev pub is_deleted_at : Mapping → Mapping → Bool
is_deleted_at m m' = m'.id == m.id && m'.local_deleted

-- What a mapping tells the synchronization.
abbrev pub flags : Mapping → Bool × Bool
flags m = (m.local_dirty, m.local_deleted)

insert_job-any :
    (j : SyncJob) (jobs : List SyncJob)
    → any (is_same_request j.user_id j.idempotency_key) (insert_job j jobs) ≡ true
unfolding insert_job
insert_job-any j jobs = elim (Bool-cases (any (is_same_request j.user_id j.idempotency_key) jobs)) [
  | inl there ↦ rw there there
  | inr new ↦ rw new (
      any-append (is_same_request j.user_id j.idempotency_key) jobs j
        (rw (==_refl j.user_id, text_eq_refl j.idempotency_key) refl))
]

marked :
    (user id : ℕ) (ms : List Mapping)
    → All
        (λ m.
          is_mapping_of user id m ≡ true
          → any (is_deleted_at m) (update_where (is_mapping_of user id) (mark_mapping true) ms)
            ≡ true)
        ms
unfolding mark_mapping
marked user id [] = tt
marked user id (m ∷ ms) = (
  (λ h. rw (h, ==_refl m.id) refl),
  All-imp
      (λ x.
        is_mapping_of user id x ≡ true
        → any (is_deleted_at x) (update_where (is_mapping_of user id) (mark_mapping true) ms)
          ≡ true)
      _ ms (λ x k h. ground (arith, k h)) (marked user id ms),
)

-- A job of the synchronization of calendars, and not of Google Tasks.
abbrev pub is_calendar_job : SyncJob → Bool
is_calendar_job j = not (str_eq j.kind "tasks_sync")

retain-appended :
    (jobs : List SyncJob) (j : SyncJob)
    → is_calendar_job j ≡ false
    → retain is_calendar_job (jobs ++ j ∷ []) ≡ retain is_calendar_job jobs
retain-appended [] j other = rw other refl
retain-appended (k ∷ jobs) j other = rw (retain-appended jobs j other) refl

-- The trigger on the tasks queues no synchronization of calendars.
change-calendar_jobs :
    (uuid_text : ℕ → Text) (now user : ℕ) (is_change : Bool) (db : Db)
    → retain is_calendar_job (enqueue_google_tasks_change uuid_text now user is_change db).jobs
      ≡ retain is_calendar_job db.jobs
unfolding insert_change_job new_job
change-calendar_jobs uuid_text now user is_change db =
    elim (Bool-cases (is_change && any (is_enabled_for user) db.task_connections)) [
      | inl fires ↦ elim (Bool-cases (any (is_pending_change user) db.jobs)) [
        | inl there ↦ rw (fires, there) refl
        | inr new ↦ rw (fires, new) (retain-appended db.jobs _ refl)
      ]
      | inr rests ↦ rw rests refl
    ]

-- The jobs of a request that are there stay so.
change-any :
    (uuid_text : ℕ → Text) (now user : ℕ) (is_change : Bool) (db : Db) (t : SyncJob → Bool)
    → any t db.jobs ≡ true
    → any t (enqueue_google_tasks_change uuid_text now user is_change db).jobs ≡ true
unfolding insert_change_job
change-any uuid_text now user is_change db t h =
    elim (Bool-cases (is_change && any (is_enabled_for user) db.task_connections)) [
      | inl fires ↦ elim (Bool-cases (any (is_pending_change user) db.jobs)) [
        | inl there ↦ rw (fires, there) h
        | inr new ↦ rw (fires, new) (any-kept t db.jobs _ h)
      ]
      | inr rests ↦ rw rests h
    ]

-- The deletion of the next occurrence on reopening a task queues no synchronization of calendars and
-- leaves what the mappings tell that as it was, also where the occurrence has an event at Google.
pub reopen-flags :
    (p : Platform) (now user id : ℕ) (db db' : Db)
    → remove_next_occurrence_for_reopen p now user id db ≡ ok db'
    → (retain is_calendar_job db'.jobs ≡ retain is_calendar_job db.jobs)
      × (map flags db'.mappings ≡ map flags db.mappings)
unfolding remove_next_occurrence_for_reopen
reopen-flags p now user id db db' h =
    elim (Option-cases (find? (is_successor_of user id) db.tasks)) [
      | inl none_found ↦
          let same : db ≡ db' = cc (rw (remove_next_occurrence_for_reopen, none_found) at h) in
          rw (← same) (refl, refl)
      | inr (next, found) ↦ elim (Bool-cases (is_todo next.task.status && next.task.version == 1)) [
        | inl untouched ↦
            let same : drop_task p now user next.task.id db ≡ db' =
              cc (rw (remove_next_occurrence_for_reopen, found, untouched) at h) in
            rw (← same) (
              unfold drop_task in
              (
                change-calendar_jobs p.uuid_text now user true (drop_row user next.task.id db),
                map-update_same flags _ forget_event db.mappings (λ m. refl),
              ))
        | inr touched ↦ cc (rw (remove_next_occurrence_for_reopen, found, touched) at h)
      ]
    ]

-- What the synchronization finds of an event at Google whose task is deleted.
pub record ToldOf (p : Platform) (user : ℕ) (e : CalendarEvent) (db db' : Db) : Type 0 where
  pub queued : any (is_same_request user (event_key p e.id e.version true)) db'.jobs ≡ true
  pub waiting :
      All
        (λ m. is_mapping_of user e.id m ≡ true → any (is_deleted_at m) db'.mappings ≡ true)
        db.mappings

module _ (p : Platform) (now user : ℕ) where
  mark-ToldOf :
      (e : CalendarEvent) (db : Db)
      → is_google_calendar user e.calendar_id db ≡ true
      → ToldOf p user e db (mark_event_for_sync p now user e true db)
  unfolding mark_event_for_sync new_job
  mark-ToldOf e db g = rw g (record {
    queued =
        insert_job-any
          (new_job db.next_id now user (some e.calendar_id) "calendar_sync"
            (event_key p e.id e.version true))
          db.jobs;
    waiting = marked user e.id db.mappings;
  })

  drop-ToldOf :
      (e : CalendarEvent) (event task : ℕ) (db db' : Db)
      → ToldOf p user e db db'
      → ToldOf p user e db (drop_task p now user task (drop_event user event db'))
  unfolding drop_task drop_event
  drop-ToldOf e event task db db' told = record {
    queued =
        change-any p.uuid_text now user true (drop_row user task (drop_event user event db'))
          (is_same_request user (event_key p e.id e.version true)) told.queued;
    waiting =
        All-imp (λ m. is_mapping_of user e.id m ≡ true → any (is_deleted_at m) db'.mappings ≡ true)
          _ db.mappings
          (λ m waits h.
            any-update_where (is_deleted_at m) _ forget_event _ (λ x. refl)
            ∙ any-update_where (is_deleted_at m) _ forget_event _ (λ x. refl)
            ∙ waits h)
          told.waiting;
  }

  remove-ToldOf :
      (id task : ℕ) (db : Db) (e : EventRow)
      → task_calendar_event user id db ≡ some e
      → is_google_calendar user e.event.calendar_id db ≡ true
      → ToldOf p user e.event db
          (drop_task p now user task (remove_task_calendar_event p now user id db))
  unfolding remove_task_calendar_event
  remove-ToldOf id task db e found g =
      rw (remove_task_calendar_event, found)
        (drop-ToldOf e.event e.event.id task db _ (mark-ToldOf e.event db g))

drop_task-gone :
    (p : Platform) (now user id : ℕ) (db : Db)
    → All (λ t. is_task user id t ≡ false) (drop_task p now user id db).tasks
      × All (λ e. is_event_of_task id e ≡ false) (drop_task p now user id db).events
unfolding drop_task
drop_task-gone p now user id db = (
  All-update_where (λ t. is_task user id t ≡ false) (is_successor id) forget_source _ (λ t _ h. h)
      (All-delete_where (is_task user id) db.tasks),
  All-delete_where (is_event_of_task id) db.events,
)

-- What a deletion that succeeds has checked and done.
pub record Deleted (p : Platform) (user id : ℕ) (expected : ℤ) (db db' : Db) : Type 0 where
  pub current : any (is_current user id expected) db.tasks ≡ true
  pub no_subtasks : has_subtasks user id db.tasks ≡ false
  pub gone : All (λ t. is_task user id t ≡ false) db'.tasks
  pub no_event : All (λ e. is_event_of_task id e ≡ false) db'.events
  pub told :
      (e : EventRow)
      → task_calendar_event user id db ≡ some e
      → is_google_calendar user e.event.calendar_id db ≡ true
      → ToldOf p user e.event db db'

module _ (p : Platform) (now user id : ℕ) (expected : ℤ) (db db' : Db) where
  -- The deletion that succeeds has passed its checks, and is that of the row.
  pub delete-drops :
      delete_task p now user id expected db ≡ ok db'
      → (any (is_current user id expected) db.tasks ≡ true)
        × (has_subtasks user id db.tasks ≡ false)
        × (drop_task p now user id (remove_task_calendar_event p now user id db) ≡ db')
  unfolding delete_task
  delete-drops h =
      let (_, h1) =
        >>-eq-ok
          (fail_if (below_one expected)
            (validation (literal "expected_version must be greater than zero")))
          _ h in
      let (childless, h2) =
        fail_if-eq-ok (has_subtasks user id db.tasks)
          (conflict (literal "task cannot be deleted while it has subtasks")) _ h1 in
      let unlinked = remove_task_calendar_event p now user id db in
      elim (Bool-cases (any (is_current user id expected) unlinked.tasks)) [
        | inl current ↦ (
          subst (λ ts. any (is_current user id expected) ts ≡ true) (remove-tasks p now user id db)
              current,
          childless,
          cc (rw current at h2),
        )
        | inr stale ↦ absurd (task_error-fails user id expected unlinked db' (rw stale at h2))
      ]

-- A task that is deleted was stored with the version that the request names and had no subtasks.
-- It is gone and so is every event of it. If its event was in a Google calendar, then a
-- synchronization is queued, and each mapping of the event waits for the deletion at Google.
pub delete_task-Deleted :
    (p : Platform) (now user id : ℕ) (expected : ℤ) (db db' : Db)
    → delete_task p now user id expected db ≡ ok db'
    → Deleted p user id expected db db'
delete_task-Deleted p now user id expected db db' h =
    let (current, childless, same) = delete-drops p now user id expected db db' h in
    let (gone, no_event) =
      drop_task-gone p now user id (remove_task_calendar_event p now user id db) in
    rw (← same) (record {
      current = current;
      no_subtasks = childless;
      gone = gone;
      no_event = no_event;
      told = λ e found g. remove-ToldOf p now user id id db e found g;
    })
