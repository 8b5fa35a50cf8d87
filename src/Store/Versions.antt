-- ===== src/Store/Versions.antt =====
-- The optimistic concurrency of the operations on tasks of apps/api/src/store.rs.
use prosepect.Base.{
  ℕ, ◌+◌, ◌≡◌, refl, sym, ap, ◌∙◌, subst, ◌≢◌, inl, inr, Option, some, true, not, ◌&&◌,
  Option-cases, if◌then◌else◌, option_test, nat_eq, arith, find?, find?-eq-some, List, Text,
}
use prosepect.Base.Int.{ℤ, pos, below_one, is_version, is_version-eq}
use prosepect.Error.{ok, validation, literal, fail_if, >>=-eq-ok, >>-eq-ok}
use prosepect.Tasks.{
  Platform, Task, RecurringTaskState, UpdateTaskRequest, RecurrenceEditScope, is_completed,
}
use prosepect.Tasks.Validate.{validate_task_fields}
use prosepect.Tasks.Labels.{validate_labels}
use prosepect.Tasks.Recurrence.{prepare}
use prosepect.Store.{Db, is_task, next_version}
use prosepect.Store.Relations.{validate_task_relationships, validate_task_update_relationships}
use prosepect.Store.Series.{load, remove_next_occurrence_for_reopen}
use prosepect.Store.Tasks.{
  update_task_scoped, update_row, after_update, edited, is_current, task_error, write_task,
}

pub next_version-eq-ok : (v w : ℕ) → next_version v ≡ ok w → w ≡ v + 1
unfolding next_version
next_version-eq-ok v w h = ground arith

pub load-eq-ok :
    (user id : ℕ) (db : Db) (t : RecurringTaskState)
    → load user id db ≡ ok t
    → find? (is_task user id) db.tasks ≡ some t
unfolding load
load-eq-ok user id db t h = ground arith

prepare-version :
    (request : UpdateTaskRequest) (scope : Option RecurrenceEditScope) (s t : RecurringTaskState)
    → prepare request scope s ≡ ok t
    → (is_version request.expected_version s.task.version ≡ true) × (t.task ≡ s.task)
unfolding prepare
prepare-version request scope s t h = ground arith

pub task_error-fails {ℓ} :
    {A : Type ℓ} (user id : ℕ) (expected : ℤ) (db : Db) (a : A)
    → task_error user id expected db ≢ ok a
task_error-fails user id expected db a h = elim (Option-cases (find? (is_task user id) db.tasks)) [
  | inl missing ↦ cc (rw (task_error, missing) at h)
  | inr (t, found) ↦ cc (rw (task_error, found) at h)
]

pub update_row-eq-ok :
    (p : Platform) (now user id : ℕ) (request : UpdateTaskRequest) (labels : List Text)
    (recurring : RecurringTaskState) (db db' : Db) (t : Task)
    → update_row p now user id request labels recurring db ≡ ok (db', t)
    → (row : RecurringTaskState) × (find? (is_current user id request.expected_version) db.tasks
        ≡ some row)
      × (t ≡ edited now request labels (row.task.version + 1) row.task)
      × (after_update p now user
            (is_completed recurring.task.status)
            t
            (write_task p now user id request.expected_version recurring row.task t db)
          ≡ ok db')
unfolding update_row
update_row-eq-ok p now user id request labels recurring db db' t h =
    elim (Option-cases (find? (is_current user id request.expected_version) db.tasks)) [
      | inl missing ↦ absurd (
          task_error-fails user id request.expected_version db (db', t)
            (rw (update_row, missing) at h))
      | inr (row, found) ↦
          let (version, next, h1) =
            >>=-eq-ok (next_version row.task.version) _ (rw (update_row, found) at h) in
          let (done, after, h2) =
            >>=-eq-ok
              (after_update p now user (is_completed recurring.task.status)
                (edited now request labels version row.task)
                (write_task p now user id request.expected_version recurring row.task
                  (edited now request labels version row.task) db))
              _ h1 in
          let made : Db × Task = (done, edited now request labels version row.task) in
          let pair : made ≡ (db', t) = cc h2 in
          let same : edited now request labels version row.task ≡ t = ap (λ r. r.1) pair in
          let last : done ≡ db' = ap (λ r. r.0) pair in
          (
            row,
            found,
            rw (← next_version-eq-ok row.task.version version next) (sym same),
            subst
                (λ x.
                  after_update p now user (is_completed recurring.task.status) x
                    (write_task p now user id request.expected_version recurring row.task x db)
                  ≡ ok db')
                same (after ∙ ap ok last),
          )
    ]

edited-version :
    (now version : ℕ) (request : UpdateTaskRequest) (labels : List Text) (t : Task)
    → ((edited now request labels version t).version ≡ version)
      × ((edited now request labels version t).id ≡ t.id)
unfolding edited
edited-version now version request labels t = (refl, refl)

module _ (p : Platform) (now user id : ℕ) (request : UpdateTaskRequest)
    (scope : Option RecurrenceEditScope) (db db' : Db) (t : Task) where
  -- The steps of an edit that succeeds.
  pub record Accepted : Type 0 where
    pub valid :
        validate_task_fields request.title request.description request.due_at
          request.scheduled_start request.scheduled_end request.recurrence request.parent_task_id
        ≡ ok tt
    pub labels : List Text
    pub stored : RecurringTaskState
    pub loaded : find? (is_task user id) db.tasks ≡ some stored
    pub recurring : RecurringTaskState
    pub prepared : prepare request scope stored ≡ ok recurring
    pub reopened : Db
    pub reopens :
        (if is_completed recurring.task.status && not (is_completed request.status)
          then remove_next_occurrence_for_reopen p now user id db
          else ok db)
        ≡ ok reopened
    pub updates : update_row p now user id request labels recurring reopened ≡ ok (db', t)

  pub update-Accepted : update_task_scoped p now user id request scope db ≡ ok (db', t) → Accepted
  unfolding update_task_scoped
  update-Accepted h =
      let (valid, h1) =
        >>-eq-ok
          (validate_task_fields request.title request.description request.due_at
            request.scheduled_start request.scheduled_end request.recurrence request.parent_task_id)
          _ h in
      let (labels, _, h2) = >>=-eq-ok (validate_labels p request.labels) _ h1 in
      let (_, h3) =
        >>-eq-ok
          (fail_if (below_one request.expected_version)
            (validation (literal "expected_version must be greater than zero")))
          _ h2 in
      let (_, h4) =
        >>-eq-ok
          (fail_if (option_test request.parent_task_id (some id))
            (validation (literal "a task cannot be its own parent")))
          _ h3 in
      let (_, h5) =
        >>-eq-ok (validate_task_relationships user request.project_id request.parent_task_id db) _
          h4 in
      let (_, h6) =
        >>-eq-ok
          (validate_task_update_relationships user id request.project_id request.parent_task_id
            request.recurrence db)
          _ h5 in
      let (stored, loaded, h7) = >>=-eq-ok (load user id db) _ h6 in
      let (recurring, prepared, h8) = >>=-eq-ok (prepare request scope stored) _ h7 in
      let (reopened, reopens, h9) =
        >>=-eq-ok
          (if is_completed recurring.task.status && not (is_completed request.status)
            then remove_next_occurrence_for_reopen p now user id db
            else ok db)
          _ h8 in
      record {
        valid = valid;
        labels = labels;
        stored = stored;
        loaded = load-eq-ok user id db stored loaded;
        recurring = recurring;
        prepared = prepared;
        reopened = reopened;
        reopens = reopens;
        updates = h9;
      }

  -- An edit that succeeds was made on the version that its request names, which the stored row has;
  -- the task that it returns has the next version.
  pub update_task_scoped-version :
      update_task_scoped p now user id request scope db ≡ ok (db', t)
      → (row : RecurringTaskState) × (find? (is_task user id) db.tasks ≡ some row)
        × (request.expected_version ≡ pos row.task.version)
        × (t.version ≡ row.task.version + 1)
        × (t.id ≡ id)
  update_task_scoped-version h =
      let a = update-Accepted h in
      let stored = a.stored in
      let (row, found, t_is, _) =
        update_row-eq-ok p now user id request a.labels a.recurring a.reopened db' t a.updates in
      let (current, _) = prepare-version request scope stored a.recurring a.prepared in
      let at = is_version-eq request.expected_version stored.task.version current in
      let is_row =
        find?-eq-some (is_current user id request.expected_version) (a.reopened).tasks row found in
      let again = is_version-eq request.expected_version row.task.version (ground arith) in
      let versions : row.task.version ≡ stored.task.version = cc in
      let (v, i) = edited-version now (row.task.version + 1) request a.labels row.task in
      (stored, a.loaded, at, cc, ground arith)
