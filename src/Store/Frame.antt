-- ===== src/Store/Frame.antt =====
-- apps/api/src/calendar_store.rs: the statements on the event of a task leave the tasks as they are.
use prosepect.Base.{
  ℕ, suc, ◌≡◌, refl, sym, ap, ◌∙◌, inl, inr, Option, none, some, Bool, true, false, ◌&&◌,
  Bool-cases, Option-cases, option_test, nat_eq, ◌==◌, [], ◌∷◌, ◌++◌, update_where, find?, retain,
}
use prosepect.Error.{ok, database, ok_or, >>=-eq-ok}
use prosepect.Tasks.{Platform, Task}
use prosepect.Store.{Db, Calendar, CalendarEvent, EventRow, next_version, drop_event}
use prosepect.Store.Blocks.{
  is_google_calendar, mark_event_for_sync, task_calendar_event, remove_task_calendar_event,
  is_preferred, lowest, ensure_default_calendar, preferred_time_block_calendar,
  detach_event_mapping, leave_calendar, new_block, move_block, upsert_block, schedule_block,
  sync_task_calendar_event,
}

module _ (p : Platform) (now user : ℕ) where
  pub mark-tasks :
      (e : CalendarEvent) (deleted : Bool) (db : Db)
      → (mark_event_for_sync p now user e deleted db).tasks ≡ db.tasks
  unfolding mark_event_for_sync
  mark-tasks e deleted db = elim (Bool-cases (is_google_calendar user e.calendar_id db)) [
    | inl there ↦ rw there refl
    | inr other ↦ rw other refl
  ]

  pub remove-tasks :
      (id : ℕ) (db : Db) → (remove_task_calendar_event p now user id db).tasks ≡ db.tasks
  unfolding remove_task_calendar_event drop_event
  remove-tasks id db = elim (Option-cases (task_calendar_event user id db)) [
    | inl none_found ↦ rw (remove_task_calendar_event, none_found) refl
    | inr (e, found) ↦ rw (remove_task_calendar_event, found) (mark-tasks e.event true db)
  ]

  preferred-tasks : (db : Db) → (preferred_time_block_calendar now user db).0.tasks ≡ db.tasks
  unfolding preferred_time_block_calendar ensure_default_calendar
  preferred-tasks db = elim (Option-cases (lowest (retain (is_preferred user) db.calendars))) [
    | inl missing ↦
        elim (Option-cases
          (find? (λ (c : Calendar). c.user_id == user && c.is_default) db.calendars)) [
            | inl no_default ↦
                rw (preferred_time_block_calendar, missing, ensure_default_calendar, no_default)
                  refl
            | inr (c, found) ↦
                rw (preferred_time_block_calendar, missing, ensure_default_calendar, found) refl
          ]
    | inr (c, found) ↦ rw (preferred_time_block_calendar, found) refl
  ]

  leave-tasks :
      (e : Option EventRow) (calendar : ℕ) (db : Db)
      → (leave_calendar p now user e calendar db).tasks ≡ db.tasks
  unfolding leave_calendar detach_event_mapping
  leave-tasks none calendar db = refl
  leave-tasks (some e) calendar db = elim (Bool-cases (e.event.calendar_id == calendar)) [
    | inl same ↦ rw same refl
    | inr other ↦ rw other (mark-tasks e.event true db)
  ]

  upsert-tasks :
      (task : ℕ) (excluded : CalendarEvent) (db : Db) (done : Db × CalendarEvent)
      → upsert_block p now user task excluded db ≡ ok done
      → done.0.tasks ≡ db.tasks
  unfolding upsert_block
  upsert-tasks task excluded db done h =
      elim (Option-cases
        (find? (λ (e : EventRow). option_test e.event.linked_task_id (some task)) db.events)) [
          | inl missing ↦
              let same : (
                record db {
                  next_id = suc db.next_id;
                  events = db.events ++ record { event = excluded; user_id = user } ∷ [];
                },
                excluded,
              )
                  ≡ done =
                cc (rw (upsert_block, missing) at h) in
              rw (← same) refl
          | inr (e, found) ↦
              let (version, _, h1) =
                >>=-eq-ok (next_version e.event.version) _ (rw (upsert_block, found) at h) in
              let moved = move_block p now user excluded e.event version in
              let same : (
                record db {
                  next_id = suc db.next_id;
                  events =
                      update_where (λ x. x.event.id == e.event.id) (λ x. record x { event = moved })
                        db.events;
                },
                moved,
              )
                  ≡ done =
                cc h1 in
              rw (← same) refl
        ]

  schedule-tasks :
      (t : Task) (starts_at ends_at : ℕ) (db db' : Db)
      → schedule_block p now user t starts_at ends_at db ≡ ok db'
      → db'.tasks ≡ db.tasks
  unfolding schedule_block
  schedule-tasks t starts_at ends_at db db' h =
      let existing = task_calendar_event user t.id db in
      let chosen = preferred_time_block_calendar now user db in
      let left = leave_calendar p now user existing chosen.1 chosen.0 in
      let (zone, _, h1) =
        >>=-eq-ok (ok_or (find? (λ u. u.0 == user) left.users) (database none)) _ h in
      let (updated, up, h2) =
        >>=-eq-ok
          (upsert_block p now user t.id
            (new_block p now user left.next_id chosen.1 t starts_at ends_at zone.1) left)
          _ h1 in
      let same : mark_event_for_sync p now user updated.1 false updated.0 ≡ db' = cc h2 in
      ap (λ d. d.tasks) (sym same)
      ∙ mark-tasks updated.1 false updated.0
      ∙ upsert-tasks t.id _ left updated up
      ∙ leave-tasks existing chosen.1 chosen.0
      ∙ preferred-tasks db

  pub sync-tasks :
      (t : Task) (db db' : Db)
      → sync_task_calendar_event p now user t db ≡ ok db'
      → db'.tasks ≡ db.tasks
  unfolding sync_task_calendar_event
  sync-tasks t db db' h = elim (Option-cases t.scheduled_start) [
    | inl unscheduled ↦
        let same : remove_task_calendar_event p now user t.id db ≡ db' =
          cc (rw (sync_task_calendar_event, unscheduled) at h) in
        ap (λ d. d.tasks) (sym same) ∙ remove-tasks t.id db
    | inr (starts_at, starts) ↦ elim (Option-cases t.scheduled_end) [
      | inl endless ↦
          let same : remove_task_calendar_event p now user t.id db ≡ db' =
            cc (rw (sync_task_calendar_event, starts, endless) at h) in
          ap (λ d. d.tasks) (sym same) ∙ remove-tasks t.id db
      | inr (ends_at, ends) ↦
          schedule-tasks t starts_at ends_at db db'
            (rw (sync_task_calendar_event, starts, ends) at h)
    ]
  ]
