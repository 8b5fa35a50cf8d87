-- ===== src/Store/Stored.antt =====
-- The well-formedness of the rows of tasks, which the CHECK constraints of the schema ask for, and
-- that the operations of apps/api/src/store.rs keep it.
use prosepect.Base.{
  ℕ, ◌+◌, ◌-◌, ◌≤◌, ◌<◌, ◌≡◌, refl, sym, subst, inl, inr, Option, none, some, not, ◌&&◌, ◌||◌, ◌==◌,
  Bool-cases, Option-cases, arith, Text, trim, trim_idem, length-trim, [], ◌∷◌, find?, All,
  All-append, All-retain, All-update_where, All-find?,
}
use prosepect.Base.Int.{is_version}
use prosepect.Error.{
  ok, ok_or, fail_if, validation, literal, conflict, changed_since, >>=-eq-ok, >>-eq-ok,
}
use prosepect.Tasks.{
  Platform, Task, RecurringTaskState, UpdateTaskRequest, RecurrenceEditScope, RecurrenceDefaults,
  TaskRecurrence, is_completed, recurs, same_recurrence, this_occurrence, this_and_future,
}
use prosepect.Tasks.Validate.{is_some, AreValid, IsOrdered}
use prosepect.Tasks.Recurrence.{
  prepare, from_template, apply_scope, keep_template, from_task, forget_template, successor_source,
}
use prosepect.Store.{Db, is_task}
use prosepect.Store.Series.{
  drop_task, is_todo, is_successor, forget_source, is_successor_of,
  remove_next_occurrence_for_reopen, shifted,
}
use prosepect.Store.Successor.{Follows}

abbrev pub HasTemplate : Option RecurrenceDefaults → Type 0
HasTemplate none = Unit
HasTemplate (some d) =
    AreValid d.title d.description (some d.due_at) d.scheduled_start d.scheduled_end d.recurrence
      none

abbrev pub TaskIsValid : Task → Type 0
TaskIsValid t =
    AreValid t.title t.description t.due_at t.scheduled_start t.scheduled_end t.recurrence
      t.parent_task_id

pub record IsStored (t : RecurringTaskState) : Type 0 where
  pub valid : TaskIsValid t.task
  pub finished : is_completed t.task.status ≡ is_some t.task.completed_at
  pub versioned : 1 ≤ t.task.version
  pub template : HasTemplate t.recurrence_defaults

pub trimmed-AreValid :
    (title description : Text) (due starts ends : Option ℕ) (r : TaskRecurrence) (parent : Option ℕ)
    → AreValid title description due starts ends r parent
    → AreValid (trim title) (trim description) due starts ends r parent
trimmed-AreValid title description due starts ends r parent v = record {
  titled = rw trim_idem v.titled;
  short_title = rw trim_idem v.short_title;
  short_description = ground (arith, length-trim description, v.short_description);
  deadline = v.deadline;
  top_level = v.top_level;
  ordered = v.ordered;
}

pub drop-IsStored :
    (p : Platform) (now user id : ℕ) (db : Db)
    → All IsStored db.tasks
    → All IsStored (drop_task p now user id db).tasks
unfolding drop_task
drop-IsStored p now user id db h =
    All-update_where IsStored (is_successor id) forget_source _
      (λ t _ s. record {
        valid = s.valid;
        finished = s.finished;
        versioned = s.versioned;
        template = s.template;
      })
      (All-retain IsStored (λ t. not (is_task user id t)) db.tasks h)

pub reopen-IsStored :
    (p : Platform) (now user id : ℕ) (db db' : Db)
    → remove_next_occurrence_for_reopen p now user id db ≡ ok db'
    → All IsStored db.tasks
    → All IsStored db'.tasks
unfolding remove_next_occurrence_for_reopen
reopen-IsStored p now user id db db' h stored =
    elim (Option-cases (find? (is_successor_of user id) db.tasks)) [
      | inl none_found ↦
          let same : db ≡ db' = cc (rw (remove_next_occurrence_for_reopen, none_found) at h) in
          rw (← same) stored
      | inr (next, found) ↦ elim (Bool-cases (is_todo next.task.status && next.task.version == 1)) [
        | inl untouched ↦
            let same : drop_task p now user next.task.id db ≡ db' =
              cc (rw (remove_next_occurrence_for_reopen, found, untouched) at h) in
            rw (← same) (drop-IsStored p now user next.task.id db stored)
        | inr touched ↦ cc (rw (remove_next_occurrence_for_reopen, found, touched) at h)
      ]
    ]

abbrev template_of : Task → ℕ → RecurrenceDefaults
template_of t due = record {
  title = t.title;
  description = t.description;
  due_at = due;
  scheduled_start = t.scheduled_start;
  scheduled_end = t.scheduled_end;
  priority = t.priority;
  recurrence = t.recurrence;
  labels = t.labels;
  remind_at = t.remind_at;
}

from_task-HasTemplate :
    (t : Task) (d : RecurrenceDefaults) → from_task t ≡ ok d → TaskIsValid t → HasTemplate (some d)
unfolding from_task
from_task-HasTemplate t d h v =
    let (due, _, h1) =
      >>=-eq-ok (ok_or t.due_at (validation (literal "a recurring task must have a deadline"))) _
        h in
    let same : template_of t due ≡ d = cc h1 in
    subst (λ x. HasTemplate (some x)) same
      (record {
        titled = v.titled;
        short_title = v.short_title;
        short_description = v.short_description;
        deadline = λ r. refl;
        top_level = λ r. refl;
        ordered = v.ordered;
      })

keep-HasTemplate :
    (defaults : Option RecurrenceDefaults) (s t : RecurringTaskState)
    → keep_template defaults s ≡ ok t
    → s.recurrence_defaults ≡ defaults
    → IsStored s
    → HasTemplate t.recurrence_defaults
unfolding keep_template from_task
keep-HasTemplate (some d) s t h same stored =
    let is_same : s ≡ t = cc h in rw (← is_same) stored.template
keep-HasTemplate none s t h same stored =
    let (d, made, h1) = >>=-eq-ok (from_task s.task) _ h in
    let is_same : (record s {
      recurrence_defaults = some d;
      recurrence_project_id = s.task.project_id;
    })
        ≡ t =
      cc h1 in
    rw (← is_same) (from_task-HasTemplate s.task d made stored.valid)

scope-HasTemplate :
    (request : UpdateTaskRequest) (scope : Option RecurrenceEditScope) (s t : RecurringTaskState)
    → apply_scope scope request s ≡ ok t
    → IsStored s
    → HasTemplate t.recurrence_defaults
unfolding apply_scope
scope-HasTemplate request (some this_occurrence) s t h stored =
    let (_, h1) =
      >>-eq-ok
        (fail_if
          (not (recurs s.task.recurrence)
            || not (same_recurrence request.recurrence s.task.recurrence))
          (validation (literal "Choose this and future occurrences to change the repeat rule.")))
        _ h in
    keep-HasTemplate s.recurrence_defaults s t h1 refl stored
scope-HasTemplate request (some this_and_future) s t h stored =
    let is_same : forget_template s ≡ t = cc h in rw (← is_same) tt
scope-HasTemplate request none s t h stored =
    elim (Bool-cases (
      not (same_recurrence request.recurrence s.task.recurrence)
      || not (recurs request.recurrence))) [
        | inl changed ↦
            let is_same : forget_template s ≡ t = cc (rw (apply_scope, changed) at h) in
            rw (← is_same) tt
        | inr kept ↦
            let is_same : s ≡ t = cc (rw (apply_scope, kept) at h) in rw (← is_same) stored.template
      ]

pub prepare-HasTemplate :
    (request : UpdateTaskRequest) (scope : Option RecurrenceEditScope) (s t : RecurringTaskState)
    → prepare request scope s ≡ ok t
    → IsStored s
    → HasTemplate t.recurrence_defaults
unfolding prepare
prepare-HasTemplate request scope s t h stored =
    let (_, h1) =
      >>-eq-ok
        (fail_if (not (is_version request.expected_version s.task.version))
          (conflict (changed_since "task" request.expected_version s.task.version)))
        _ h in
    let (_, h2) =
      >>-eq-ok
        (fail_if (is_some scope && is_completed s.task.status)
          (validation (literal "Choose an unfinished task to edit recurring occurrences.")))
        _ h1 in
    scope-HasTemplate request scope s t h2 stored

shifted-eq-ok :
    (p : Platform) (shift a : ℕ) (o : Option ℕ)
    → shifted p shift (some a) ≡ ok o
    → (b : ℕ) × (p.checked_add_signed a shift ≡ some b) × (o ≡ some b)
unfolding shifted
shifted-eq-ok p shift a o h = elim (Option-cases (p.checked_add_signed a shift)) [
  | inl out ↦ cc (rw (shifted, out) at h)
  | inr (b, found) ↦ (b, found, sym (cc (rw (shifted, found) at h)))
]

shifted-none : (p : Platform) (shift : ℕ) (o : Option ℕ) → shifted p shift none ≡ ok o → none ≡ o
unfolding shifted
shifted-none p shift o h = cc

from_template-AreValid :
    (d : Option RecurrenceDefaults) (project : Option ℕ) (t : Task)
    → TaskIsValid t
    → HasTemplate d
    → let s = from_template d project t in
      AreValid s.title s.description s.due_at s.scheduled_start s.scheduled_end s.recurrence none
unfolding from_template
from_template-AreValid none project t v h = record {
  titled = v.titled;
  short_title = v.short_title;
  short_description = v.short_description;
  deadline = v.deadline;
  top_level = λ r. refl;
  ordered = v.ordered;
}
from_template-AreValid (some d) project t v h = h

source-AreValid :
    (t : RecurringTaskState)
    → IsStored t
    → let s = successor_source t in
      AreValid s.title s.description s.due_at s.scheduled_start s.scheduled_end s.recurrence none
unfolding successor_source
source-AreValid t stored =
    from_template-AreValid t.recurrence_defaults t.recurrence_project_id t.task stored.valid
      stored.template

module _ (p : Platform) (chrono : (a b c : ℕ) → p.checked_add_signed a b ≡ some c → c ≡ a + b) where
  shifted-IsOrdered :
      (shift : ℕ) (s e s' e' : Option ℕ)
      → IsOrdered s e
      → shifted p shift s ≡ ok s'
      → shifted p shift e ≡ ok e'
      → IsOrdered s' e'
  shifted-IsOrdered shift none none s' e' o hs he =
      subst (λ x. IsOrdered x e') (shifted-none p shift s' hs)
        (subst (IsOrdered none) (shifted-none p shift e' he) tt)
  shifted-IsOrdered shift (some a) (some b) s' e' o hs he =
      let (c, later, s_is) = shifted-eq-ok p shift a s' hs in
      let (d, latest, e_is) = shifted-eq-ok p shift b e' he in
      let c_is = chrono a shift c later in
      let d_is = chrono b shift d latest in
      let ordered : c < d = omega arith in
      subst (λ x. IsOrdered x e') (sym s_is) (subst (IsOrdered (some c)) (sym e_is) ordered)
  shifted-IsOrdered shift none (some b) s' e' o hs he = absurd o
  shifted-IsOrdered shift (some a) none s' e' o hs he = absurd o

  pub Follows-IsStored :
      (user id : ℕ) (db db' : Db)
      → Follows p user id db db'
      → All IsStored db.tasks
      → All IsStored db'.tasks
  Follows-IsStored user id db db' f stored =
      let (own, _) = All-find? IsStored (is_task user id) db.tasks f.stored stored f.found in
      let source = successor_source f.stored in
      let v = source-AreValid f.stored own in
      let ordered =
        shifted-IsOrdered (f.next_due_at - f.due_at) source.scheduled_start source.scheduled_end
          f.row.task.scheduled_start f.row.task.scheduled_end v.ordered f.starts f.ends in
      let next : IsStored f.row = record {
        valid =
            rw (f.title, f.description, f.is_due, f.recurrence, f.top_level)
              (record {
                titled = v.titled;
                short_title = v.short_title;
                short_description = v.short_description;
                deadline = λ r. refl;
                top_level = λ r. refl;
                ordered = ordered;
              });
        finished = rw (f.to_do, f.incomplete) refl;
        versioned = rw (f.first) (omega arith);
        template = subst HasTemplate (sym f.no_template) tt;
      } in
      rw (f.appended) (All-append IsStored db.tasks (f.row ∷ []) stored (next, tt))
