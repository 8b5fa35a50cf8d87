-- ===== src/Store/Events.antt =====
-- apps/api/src/calendar_store.rs: the operations on events.
use prosepect.Base.{
  ℕ, suc, ◌+◌, Option, none, some, Bool, true, false, not, ◌&&◌, ◌||◌, List, [], ◌∷◌, ◌++◌,
  if◌then◌else◌, nat_eq, ◌==◌, ltb, leb, Text, trim, is_empty, text_eq, any, find?, length,
  update_where,
}
use prosepect.Base.Int.{ℤ, is_version}
use prosepect.Error.{
  AppResult, ok, err, AppError, validation, conflict, not_found, literal, changed_since, fail_if,
  ◌>>=◌, ◌>>◌,
}
use prosepect.Tasks.{Platform}
use prosepect.Tasks.Validate.{is_some}
use prosepect.Store.{
  Db, Calendar, is_google, EventRecurrence, once, CalendarEvent, EventRow, is_task, is_event,
  is_calendar, next_version, drop_event,
}
use prosepect.Store.Blocks.{
  mark_event_for_sync, can_write, ensure_calendar_writable, leave_calendar,
}

pub record CreateCalendarEventRequest : Type 0 where
  pub calendar_id : ℕ
  pub title : Text
  pub description : Text
  pub starts_at : ℕ
  pub ends_at : ℕ
  pub all_day : Bool
  pub timezone : Text
  pub location : Text
  pub attendees : List Text
  pub recurrence : EventRecurrence
  pub recurrence_until : Option ℕ

-- The request of an update: the same fields, with the version that the client has read.
pub record UpdateCalendarEventRequest : Type 0 where
  pub fields : CreateCalendarEventRequest
  pub expected_version : ℤ

abbrev pub is_once : EventRecurrence → Bool
is_once once = true
is_once _ = false

abbrev pub ends_early : ℕ → Option ℕ → Bool
ends_early starts_at none = false
ends_early starts_at (some until) = leb until starts_at

unfoldable pub validate_event_request : CreateCalendarEventRequest → AppResult (Unit {0})
validate_event_request r = do
  fail_if (is_empty (trim r.title) || ltb 240 (length (trim r.title)))
      (validation (literal "event title must contain between 1 and 240 characters"))
  fail_if (ltb 10_000 (length r.description) || ltb 500 (length r.location))
      (validation (literal "event description or location is too long"))
  fail_if (leb r.ends_at r.starts_at) (validation (literal "event end must be after its start"))
  fail_if (is_empty (trim r.timezone) || ltb 64 (length r.timezone))
      (validation (literal "event timezone is invalid"))
  fail_if (ltb 100 (length r.attendees))
      (validation (literal "an event cannot have more than 100 attendees"))
  fail_if (is_once r.recurrence && is_some r.recurrence_until)
      (validation (literal "recurrence_until requires a recurring event"))
  fail_if (ends_early r.starts_at r.recurrence_until)
      (validation (literal "recurrence_until must be after the event start"))

-- `str::len`: the bytes of the UTF-8 encoding.
unfoldable pub utf8_length : Text → ℕ
utf8_length [] = 0
utf8_length (c ∷ s) =
    (if ltb c 0x80 then 1 else if ltb c 0x800 then 2 else if ltb c 0x10000 then 3 else 4)
    + utf8_length s

abbrev pub attendee_error : AppError
attendee_error = validation (literal "event attendees must be valid email addresses")

abbrev pub is_bad_attendee : Text → Bool
is_bad_attendee a = ltb 254 (utf8_length a) || not (any (λ c. c == 0x40) a)

module _ (p : Platform) where
  unfoldable pub normalize_from : List Text → List Text → AppResult (List Text)
  normalize_from normalized [] = ok normalized
  normalize_from normalized (raw ∷ attendees) =
      let attendee = p.to_lowercase (trim raw) in
      let skipped = normalize_from normalized attendees in
      let pushed = normalize_from (normalized ++ attendee ∷ []) attendees in
      if is_empty attendee
      then skipped
      else if is_bad_attendee attendee
      then err attendee_error
      else if any (text_eq attendee) normalized
      then skipped
      else pushed

  unfoldable pub normalize_attendees : List Text → AppResult (List Text)
  unfolding normalize_from
  normalize_attendees attendees = normalize_from [] attendees

-- `calendars.source = 'native' OR calendars.access_role IN ('writer', 'owner')`
unfoldable pub accepts : ℕ → ℕ → Calendar → Bool
accepts user id c = is_calendar user id c && (not (is_google c.source) || can_write c.access_role)

-- The columns that a request sets.
unfoldable pub write_event : CreateCalendarEventRequest → List Text → CalendarEvent → CalendarEvent
write_event r attendees e = record e {
  calendar_id = r.calendar_id;
  title = trim r.title;
  description = trim r.description;
  starts_at = r.starts_at;
  ends_at = r.ends_at;
  all_day = r.all_day;
  timezone = trim r.timezone;
  location = trim r.location;
  attendees = attendees;
  recurrence = r.recurrence;
  recurrence_until = r.recurrence_until;
}

unfoldable pub new_event : ℕ → ℕ → CreateCalendarEventRequest → List Text → CalendarEvent
unfolding write_event
new_event id now r attendees = write_event r attendees (record {
  id = id;
  calendar_id = r.calendar_id;
  linked_task_id = none;
  title = [];
  description = [];
  starts_at = r.starts_at;
  ends_at = r.ends_at;
  all_day = r.all_day;
  timezone = [];
  location = [];
  attendees = attendees;
  recurrence = r.recurrence;
  recurrence_until = r.recurrence_until;
  created_at = now;
  updated_at = now;
  version = 1;
})

abbrev pub event_error {ℓ} : {A : Type ℓ} → ℕ → ℕ → ℤ → Db → AppResult A
event_error user id expected db = elim (find? (is_event user id) db.events) [
  | some e ↦ err (conflict (changed_since "calendar event" expected e.event.version))
  | none ↦ err (not_found "calendar event")
]

abbrev pub is_current_event : ℕ → ℕ → ℤ → EventRow → Bool
is_current_event user id expected e = is_event user id e && is_version expected e.event.version

-- The UPDATE of the schedule of the task that an event is linked to.
unfoldable pub set_schedule : ℕ → ℕ → Option ℕ → Option ℕ → Option ℕ → Db → AppResult Db
set_schedule now user none starts_at ends_at db = ok db
set_schedule now user (some task) starts_at ends_at db = elim (find? (is_task user task) db.tasks) [
  | none ↦ ok db
  | some row ↦ next_version row.task.version >>= λ version. ok (record db {
    tasks =
        update_where (is_task user task)
          (λ t. record t {
            task = record t.task {
              scheduled_start = starts_at;
              scheduled_end = ends_at;
              updated_at = now;
              version = version;
            };
          })
          db.tasks;
  })
]

abbrev pub check_previous : ℕ → Option EventRow → Db → AppResult (Unit {0})
check_previous user none db = ok tt
check_previous user (some e) db = ensure_calendar_writable user e.event.calendar_id db

module _ (p : Platform) (now user : ℕ) where
  unfoldable pub create_calendar_event :
      CreateCalendarEventRequest → Db → AppResult (Db × CalendarEvent)
  create_calendar_event request db = do
    validate_event_request request
    ensure_calendar_writable user request.calendar_id db
    attendees ← normalize_attendees p request.attendees
    fail_if (not (any (accepts user request.calendar_id) db.calendars)) (not_found "calendar")
    let e = new_event db.next_id now request attendees
    let inserted : Db = record db {
      next_id = suc db.next_id;
      events = db.events ++ record { event = e; user_id = user } ∷ [];
    }
    ok (mark_event_for_sync p now user e false inserted, e)

  unfoldable pub update_event_row :
      ℕ
      → ℤ
      → CreateCalendarEventRequest
      → List Text
      → Option EventRow
      → Db
      → AppResult (Db × CalendarEvent)
  update_event_row id expected request attendees previous db =
      elim (find? (is_current_event user id expected) db.events) [
        | none ↦ event_error user id expected db
        | some row ↦
            if not (any (accepts user request.calendar_id) db.calendars)
            then event_error user id expected db
            else next_version row.event.version >>= λ version.
                let e : CalendarEvent = record (write_event request attendees row.event) {
                  updated_at = now;
                  version = version;
                } in
                set_schedule now user e.linked_task_id (some e.starts_at) (some e.ends_at)
                  (record db {
                    events =
                        update_where (is_current_event user id expected)
                          (λ x. record x { event = e }) db.events;
                  })
                >>= λ scheduled. ok (
                  mark_event_for_sync p now user e false
                      (leave_calendar p now user previous e.calendar_id scheduled),
                  e,
                )
      ]

  unfoldable pub update_calendar_event :
      ℕ → UpdateCalendarEventRequest → Db → AppResult (Db × CalendarEvent)
  update_calendar_event id request db = do
    validate_event_request request.fields
    ensure_calendar_writable user request.fields.calendar_id db
    let previous = find? (is_event user id) db.events
    check_previous user previous db
    attendees ← normalize_attendees p request.fields.attendees
    update_event_row id request.expected_version request.fields attendees previous db

  unfoldable pub delete_event_row : ℕ → ℤ → Option EventRow → Db → AppResult Db
  delete_event_row id expected none db = event_error user id expected db
  delete_event_row id expected (some e) db =
      set_schedule now user e.event.linked_task_id none none (drop_event user id db)

  unfoldable pub delete_calendar_event : ℕ → ℤ → Db → AppResult Db
  delete_calendar_event id expected db =
      elim (find? (is_current_event user id expected) db.events) [
        | none ↦ event_error user id expected db
        | some existing ↦ do
          ensure_calendar_writable user existing.event.calendar_id db
          let marked = mark_event_for_sync p now user existing.event true db
          delete_event_row id expected (find? (is_current_event user id expected) marked.events)
              marked
      ]
