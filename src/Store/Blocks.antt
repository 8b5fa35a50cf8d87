-- ===== src/Store/Blocks.antt =====
-- apps/api/src/calendar_store.rs: the event of a scheduled task, and what tells the synchronization
-- of a change.
use text.Mathlib.Text.{◌==◌ as str_eq}
use prosepect.Base.{
  ℕ, suc, String, Option, none, some, Bool, true, false, not, ◌&&◌, ◌||◌, List, [], ◌∷◌, ◌++◌,
  if◌then◌else◌, option_test, nat_eq, ◌==◌, leb, Text, codes, any, find?, retain, update_where,
}
use prosepect.Error.{AppResult, ok, err, database, not_found, forbidden, ok_or, ◌>>=◌}
use prosepect.Jobs.{SyncJob, new_job, is_same_request}
use prosepect.Tasks.{Platform, Task}
use prosepect.Store.{
  Db, Calendar, native, is_google, CalendarEvent, once, EventRow, Mapping, next_version,
  is_calendar, stands_for, forget_event, drop_event,
}

-- `format!("calendar-event:{}:{}:{}", ...)`
unfoldable pub event_key : Platform → ℕ → ℕ → Bool → Text
event_key p id version deleted =
    codes "calendar-event:"
    ++ p.uuid_text id
    ++ codes ":"
    ++ p.decimal version
    ++ codes ":"
    ++ codes (if deleted then "deleted" else "changed")

-- The UPDATE of a changed or deleted event's mapping.
unfoldable pub mark_mapping : Bool → Mapping → Mapping
mark_mapping deleted m = record m {
  local_dirty = not deleted;
  local_deleted = deleted;
  canonical_event_id = if deleted then none else m.canonical_event_id;
}

abbrev pub is_mapping_of : ℕ → ℕ → Mapping → Bool
is_mapping_of user id m = m.user_id == user && stands_for id m

-- `ON CONFLICT (user_id, idempotency_key) DO NOTHING`
unfoldable pub insert_job : SyncJob → List SyncJob → List SyncJob
insert_job j jobs =
    if any (is_same_request j.user_id j.idempotency_key) jobs then jobs else jobs ++ j ∷ []

-- Whether `SELECT source FROM calendars` answers "google".
unfoldable pub is_google_calendar : ℕ → ℕ → Db → Bool
is_google_calendar user id db = elim (find? (is_calendar user id) db.calendars) [
  | none ↦ false
  | some c ↦ is_google c.source
]

module _ (p : Platform) (now user : ℕ) where
  unfoldable pub mark_event_for_sync : CalendarEvent → Bool → Db → Db
  mark_event_for_sync e deleted db =
      if not (is_google_calendar user e.calendar_id db) then db else record db {
        next_id = suc db.next_id;
        mappings = update_where (is_mapping_of user e.id) (mark_mapping deleted) db.mappings;
        jobs =
            insert_job
              (new_job db.next_id now user (some e.calendar_id) "calendar_sync"
                (event_key p e.id e.version deleted))
              db.jobs;
      }

abbrev pub is_linked : ℕ → ℕ → EventRow → Bool
is_linked user task e = e.user_id == user && option_test e.event.linked_task_id (some task)

unfoldable pub task_calendar_event : ℕ → ℕ → Db → Option EventRow
task_calendar_event user task db = find? (is_linked user task) db.events

unfoldable pub can_write : String → Bool
can_write role = str_eq role "writer" || str_eq role "owner"

-- The WHERE clause of preferred_time_block_calendar.
unfoldable pub is_preferred : ℕ → Calendar → Bool
is_preferred user c =
    c.user_id == user
    && is_google c.source
    && c.selected
    && c.provider_primary
    && can_write c.access_role

-- `ORDER BY id LIMIT 1`
unfoldable pub lowest : List Calendar → Option Calendar
lowest [] = none
lowest (c ∷ cs) = elim (lowest cs) [
  | none ↦ some c
  | some d ↦ if leb c.id d.id then some c else some d
]

module _ (now user : ℕ) where
  unfoldable pub ensure_default_calendar : Db → Db × ℕ
  ensure_default_calendar db =
      elim (find? (λ (c : Calendar). c.user_id == user && c.is_default) db.calendars) [
        | some c ↦ (db, c.id)
        | none ↦ (
          record db {
            next_id = suc db.next_id;
            calendars =
                db.calendars
                ++ record {
                  id = db.next_id;
                  user_id = user;
                  name = codes "My calendar";
                  color = codes "#64748b";
                  source = native;
                  external_id = none;
                  selected = true;
                  is_default = true;
                  provider_primary = false;
                  access_role = "reader";
                  sync_token = none;
                  last_synced_at = none;
                  last_sync_error = none;
                  created_at = now;
                  updated_at = now;
                  version = 1;
                }
                  ∷ [];
          },
          db.next_id,
        )
      ]

  unfoldable pub preferred_time_block_calendar : Db → Db × ℕ
  preferred_time_block_calendar db = elim (lowest (retain (is_preferred user) db.calendars)) [
    | some c ↦ (db, c.id)
    | none ↦ ensure_default_calendar db
  ]

unfoldable pub ensure_calendar_writable : ℕ → ℕ → Db → AppResult (Unit {0})
ensure_calendar_writable user id db = elim (find? (is_calendar user id) db.calendars) [
  | none ↦ err (not_found "calendar")
  | some c ↦
      if is_google c.source && not (can_write c.access_role)
      then err (forbidden "calendar is read-only")
      else ok tt
]

unfoldable pub detach_event_mapping : ℕ → CalendarEvent → Db → Db
detach_event_mapping user e db = record db {
  mappings =
      update_where (λ m. m.user_id == user && m.calendar_id == e.calendar_id && stands_for e.id m)
        forget_event db.mappings;
}

module _ (p : Platform) (now user : ℕ) where
  unfoldable pub remove_task_calendar_event : ℕ → Db → Db
  remove_task_calendar_event task db = elim (task_calendar_event user task db) [
    | none ↦ db
    | some e ↦ drop_event user e.event.id (mark_event_for_sync p now user e.event true db)
  ]

  -- An event that leaves its calendar is deleted at Google and its mapping detached.
  unfoldable pub leave_calendar : Option EventRow → ℕ → Db → Db
  leave_calendar none calendar db = db
  leave_calendar (some e) calendar db =
      if e.event.calendar_id == calendar
      then db
      else detach_event_mapping user e.event (mark_event_for_sync p now user e.event true db)

  -- The values of the INSERT; the columns that it does not name have their defaults.
  unfoldable pub new_block : ℕ → ℕ → Task → ℕ → ℕ → Text → CalendarEvent
  new_block id calendar t starts_at ends_at timezone = record {
    id = id;
    calendar_id = calendar;
    linked_task_id = some t.id;
    title = t.title;
    description = t.description;
    starts_at = starts_at;
    ends_at = ends_at;
    all_day = false;
    timezone = timezone;
    location = [];
    attendees = [];
    recurrence = once;
    recurrence_until = none;
    created_at = now;
    updated_at = now;
    version = 1;
  }

  -- `DO UPDATE SET`
  unfoldable pub move_block : CalendarEvent → CalendarEvent → ℕ → CalendarEvent
  move_block excluded e version = record e {
    calendar_id = excluded.calendar_id;
    title = excluded.title;
    description = excluded.description;
    starts_at = excluded.starts_at;
    ends_at = excluded.ends_at;
    timezone = excluded.timezone;
    updated_at = now;
    version = version;
  }

  -- `INSERT ... ON CONFLICT (linked_task_id) DO UPDATE ... RETURNING`
  unfoldable pub upsert_block : ℕ → CalendarEvent → Db → AppResult (Db × CalendarEvent)
  upsert_block task excluded db =
      elim (find? (λ (e : EventRow). option_test e.event.linked_task_id (some task)) db.events) [
        | none ↦ ok (
          record db {
            next_id = suc db.next_id;
            events = db.events ++ record { event = excluded; user_id = user } ∷ [];
          },
          excluded,
        )
        | some e ↦ next_version e.event.version >>= λ version.
            let moved = move_block excluded e.event version in
            ok (
              record db {
                next_id = suc db.next_id;
                events =
                    update_where (λ x. x.event.id == e.event.id) (λ x. record x { event = moved })
                      db.events;
              },
              moved,
            )
      ]

  unfoldable pub schedule_block : Task → ℕ → ℕ → Db → AppResult Db
  schedule_block t starts_at ends_at db =
      let existing = task_calendar_event user t.id db in
      let (db, calendar) = preferred_time_block_calendar now user db in
      let db = leave_calendar existing calendar db in
      do
        zone ← ok_or (find? (λ u. u.0 == user) db.users) (database none)
        updated ← upsert_block t.id (new_block db.next_id calendar t starts_at ends_at zone.1) db
        ok (mark_event_for_sync p now user updated.1 false updated.0)

  unfoldable pub sync_task_calendar_event : Task → Db → AppResult Db
  sync_task_calendar_event t db = elim t.scheduled_start [
    | none ↦ ok (remove_task_calendar_event t.id db)
    | some starts_at ↦ elim t.scheduled_end [
      | none ↦ ok (remove_task_calendar_event t.id db)
      | some ends_at ↦ schedule_block t starts_at ends_at db
    ]
  ]
