-- ===== src/Store/Successor.antt =====
-- create_next_recurring_task of apps/api/src/store.rs, and remove_next_occurrence_for_reopen, which
-- undoes it.
use prosepect.Base.{
  ℕ, suc, ◌+◌, ◌-◌, ◌≡◌, refl, sym, ap, ◌∙◌, subst, Option, none, some, true, false, ◌&&◌, nat_eq,
  ◌==◌, ==_refl, arith, List, [], ◌∷◌, ◌++◌, any, find?, find?-eq-some, delete_where, update_where,
  All,
}
use prosepect.Error.{ok, validation, literal, constraint_violation, ok_or, >>=-eq-ok, fail_if-eq-ok}
use prosepect.Tasks.{Platform, RecurringTaskState, todo}
use prosepect.Tasks.Recurrence.{successor_source, next_recurrence_date}
use prosepect.Store.{Db, is_task}
use prosepect.Store.Changes.{enqueue_google_tasks_change}
use prosepect.Store.Series.{
  top_position, next_task_position, ensure_labels, is_successor, forget_source, drop_task,
  is_successor_of, is_todo, remove_next_occurrence_for_reopen, load, insert_task, shifted, next_row,
  create_next_recurring_task,
}
use prosepect.Store.Frame.{sync-tasks}

-- What follows a completed task: a row that is its only successor, at the end of the order, a period
-- later than the template of the series.
pub record Follows (p : Platform) (user id : ℕ) (db db' : Db) : Type 0 where
  pub stored : RecurringTaskState
  pub found : find? (is_task user id) db.tasks ≡ some stored
  pub alone : any (is_successor id) db.tasks ≡ false
  pub row : RecurringTaskState
  pub appended : db'.tasks ≡ db.tasks ++ row ∷ []
  pub fresh : row.task.id ≡ db.next_id
  pub owned : row.user_id ≡ user
  pub follows : row.recurrence_source_id ≡ some id
  pub to_do : row.task.status ≡ todo
  pub first : row.task.version ≡ 1
  pub incomplete : row.task.completed_at ≡ none
  pub top_level : row.task.parent_task_id ≡ none
  pub no_template : row.recurrence_defaults ≡ none
  pub title : row.task.title ≡ (successor_source stored).title
  pub description : row.task.description ≡ (successor_source stored).description
  pub recurrence : row.task.recurrence ≡ (successor_source stored).recurrence
  pub last : row.task.position ≡ top_position user db.tasks + 1024
  pub due_at : ℕ
  pub next_due_at : ℕ
  pub was_due : (successor_source stored).due_at ≡ some due_at
  pub period : next_recurrence_date p due_at (successor_source stored).recurrence ≡ ok next_due_at
  pub is_due : row.task.due_at ≡ some next_due_at
  pub starts :
      shifted p (next_due_at - due_at) (successor_source stored).scheduled_start
      ≡ ok row.task.scheduled_start
  pub ends :
      shifted p (next_due_at - due_at) (successor_source stored).scheduled_end
      ≡ ok row.task.scheduled_end
  pub reminds :
      shifted p (next_due_at - due_at) (successor_source stored).remind_at ≡ ok row.task.remind_at

load-found :
    (user id : ℕ) (db : Db) (t : RecurringTaskState)
    → load user id db ≡ ok t
    → find? (is_task user id) db.tasks ≡ some t
unfolding load
load-found user id db t h = ground arith

ok_or-eq-ok {ℓ} : {A : Type ℓ} (o : Option A) (a : A) (e : _) → ok_or o e ≡ ok a → o ≡ some a
ok_or-eq-ok none a e h = cc
ok_or-eq-ok (some b) a e h = cc

position-eq-ok :
    (user : ℕ) (db : Db) (n : ℕ)
    → next_task_position user db ≡ ok n
    → n ≡ top_position user db.tasks + 1024
unfolding next_task_position
position-eq-ok user db n h = ground arith

source-id : (t : RecurringTaskState) → (successor_source t).id ≡ t.task.id
unfolding successor_source
source-id t = ground arith

insert-eq-ok :
    (p : Platform) (now : ℕ) (row : RecurringTaskState) (source : ℕ) (db db' : Db)
    → row.recurrence_source_id ≡ some source
    → insert_task p now row db ≡ ok db'
    → (any (is_successor source) db.tasks ≡ false) × (db'.tasks ≡ db.tasks ++ row ∷ [])
unfolding insert_task
insert-eq-ok p now row source db db' s h =
    let (alone, h1) =
      fail_if-eq-ok (any (is_successor source) db.tasks)
        (constraint_violation "23505" "tasks_recurrence_source_idx") _ (rw s at h) in
    let same : enqueue_google_tasks_change p.uuid_text now row.user_id true
          (record db { next_id = suc db.next_id; tasks = db.tasks ++ row ∷ [] })
        ≡ db' =
      cc h1 in
    (alone, ap (λ d. d.tasks) (sym same))

module _ (p : Platform) (now user id : ℕ) (db db' : Db) where
  -- The next occurrence of a completed task, where it is created, is one new row, the only one that
  -- follows the task. It is open, unchanged and last in the order, and its deadline is that of the
  -- template a period later; the schedule and the reminder are shifted by as much as the deadline.
  pub create_next-Follows :
      create_next_recurring_task p now user id db ≡ ok db' → Follows p user id db db'
  unfolding create_next_recurring_task ensure_labels next_row
  create_next-Follows h =
      let (stored, loaded, h1) = >>=-eq-ok (load user id db) _ h in
      let source = successor_source stored in
      let labelled = ensure_labels user source.labels db in
      let (due, was_due, h2) =
        >>=-eq-ok
          (ok_or source.due_at (validation (literal "a recurring task must have a deadline"))) _
          h1 in
      let (next, period, h3) = >>=-eq-ok (next_recurrence_date p due source.recurrence) _ h2 in
      let (position, at, h4) = >>=-eq-ok (next_task_position user labelled) _ h3 in
      let (starts_at, starts, h5) =
        >>=-eq-ok (shifted p (next - due) source.scheduled_start) _ h4 in
      let (ends_at, ends, h6) = >>=-eq-ok (shifted p (next - due) source.scheduled_end) _ h5 in
      let (remind_at, reminds, h7) = >>=-eq-ok (shifted p (next - due) source.remind_at) _ h6 in
      let row =
        next_row p now user labelled.next_id source next starts_at ends_at remind_at position in
      let (inserted, added, h8) = >>=-eq-ok (insert_task p now row labelled) _ h7 in
      let (alone, appended) = insert-eq-ok p now row source.id labelled inserted refl added in
      let found = load-found user id db stored loaded in
      let is_row = find?-eq-some (is_task user id) db.tasks stored found in
      let same : source.id ≡ id = source-id stored ∙ ground arith in
      record {
        stored = stored;
        found = found;
        alone = subst (λ i. any (is_successor i) db.tasks ≡ false) same alone;
        row = row;
        appended = sync-tasks p now user row.task inserted db' h8 ∙ appended;
        fresh = refl;
        owned = refl;
        follows = ap some same;
        to_do = refl;
        first = refl;
        incomplete = refl;
        top_level = refl;
        no_template = refl;
        title = refl;
        description = refl;
        recurrence = refl;
        last = position-eq-ok user labelled position at;
        due_at = due;
        next_due_at = next;
        was_due = ok_or-eq-ok source.due_at due _ was_due;
        period = period;
        is_due = refl;
        starts = starts;
        ends = ends;
        reminds = reminds;
      }

find?-appended :
    (user id : ℕ) (rows : List RecurringTaskState) (row : RecurringTaskState)
    → any (is_successor id) rows ≡ false
    → is_successor_of user id row ≡ true
    → find? (is_successor_of user id) (rows ++ row ∷ []) ≡ some row
find?-appended user id [] row alone new = rw new refl
find?-appended user id (t ∷ rows) row alone new =
    let other : is_successor_of user id t ≡ false = ground arith in
    rw other (find?-appended user id rows row (ground arith) new)

-- A row that does not name an identifier.
pub record IsOlder (id : ℕ) (t : RecurringTaskState) : Type 0 where
  pub apart : (t.task.id == id) ≡ false
  pub unrelated : is_successor id t ≡ false

drop-appended :
    (user id : ℕ) (rows : List RecurringTaskState) (row : RecurringTaskState)
    → All (IsOlder id) rows
    → is_task user id row ≡ true
    → update_where
        (is_successor id)
        forget_source
        (delete_where (is_task user id) (rows ++ row ∷ []))
      ≡ rows
drop-appended user id [] row older new = rw new refl
drop-appended user id (t ∷ rows) row older new =
    let kept : is_task user id t ≡ false = ground (arith, (older.0).apart) in
    rw (kept, (older.0).unrelated, drop-appended user id rows row older.1 new) refl

module _ (p : Platform) (now user id : ℕ) (db db' : Db) where
  -- Reopening a task, at whatever time, right after its completion has created the next occurrence succeeds, and leaves
  -- the tasks that there were before, where no row names the identifier that is drawn next.
  pub reopen-create_next :
      (later : ℕ)
      → create_next_recurring_task p now user id db ≡ ok db'
      → All (IsOlder db.next_id) db.tasks
      → (undone : Db) × (remove_next_occurrence_for_reopen p later user id db' ≡ ok undone)
        × (undone.tasks ≡ db.tasks)
  unfolding remove_next_occurrence_for_reopen drop_task
  reopen-create_next later h older =
      let f = create_next-Follows p now user id db db' h in
      let row = f.row in
      let own : is_successor_of user id row ≡ true =
        rw (f.follows, f.owned, ==_refl id, ==_refl user) refl in
      let found : find? (is_successor_of user id) db'.tasks ≡ some row =
        rw (f.appended) (find?-appended user id db.tasks row f.alone own) in
      let untouched : (is_todo row.task.status && row.task.version == 1) ≡ true =
        rw (f.to_do, f.first) refl in
      let new : is_task user row.task.id row ≡ true =
        rw (f.owned, ==_refl row.task.id, ==_refl user) refl in
      let back = drop-appended user row.task.id db.tasks row (rw (f.fresh) older) new in
      (
        drop_task p later user row.task.id db',
        rw (remove_next_occurrence_for_reopen, found, untouched) refl,
        subst
            (λ rows.
              update_where (is_successor row.task.id) forget_source
                (delete_where (is_task user row.task.id) rows)
              ≡ db.tasks)
            (sym f.appended) back,
      )
