-- ===== src/Sync/Push.antt =====
-- `push_calendar` of apps/api/src/sync_service.rs. Google is a parameter: what it answers to the
-- creation, the reading, the replacement and the deletion of an event.
use prosepect.Base.{
  ℕ, suc, Option, none, some, Bool, true, false, not, ◌&&◌, ◌||◌, List, [], ◌∷◌, ◌++◌, ◌==◌, leb,
  if◌then◌else◌, option_test, nat_eq, any, find?, retain, Text,
}
use prosepect.Store.{Db, CalendarEvent, EventRow, Mapping, stands_for}
use prosepect.Sync.{
  SyncError, google, refused, SyncResult, success, failure, ◌>>=◌, ◌>>◌, GoogleEvent,
  GoogleEventWrite, NormalizedEvent, Codec,
}
use prosepect.Sync.Google.{from_local, local_fingerprint}
use prosepect.Sync.Canonical.{set_mapping, delete_mapping, record_activity}
use prosepect.Sync.Apply.{SyncCalendar, is_external}
use prosepect.Sync.Pull.{Written, and_continue, or_keep}

-- What a request that creates an event is answered: it exists, a failure, or the event.
pub data Creation : Type 0 where
  exists : Creation
  rejected : SyncError → Creation
  created : GoogleEvent → Creation

-- What a request that reads an event is answered: it does not exist, a failure, or the event.
pub data Reading : Type 0 where
  missing : Reading
  unread : SyncError → Reading
  read : GoogleEvent → Reading

-- The requests, for the identifier of the calendar and of the event. Those that carry If-Match take
-- the etag. A deletion of an event that is not found succeeds.
pub record Google : Type 0 where
  pub post : Text → GoogleEventWrite → Creation
  pub get : Text → Text → Reading
  pub put : Text → Text → Option Text → GoogleEventWrite → SyncResult GoogleEvent
  pub delete : Text → Text → Option Text → SyncResult (Unit {0})
  -- The identifier that an event here is given at Google, its UUID without dashes.
  pub event_id : ℕ → Text

-- `LocalEvent`, without the identifier.
unfoldable pub local_event : CalendarEvent → NormalizedEvent
local_event e = record {
  title = e.title;
  description = e.description;
  starts_at = e.starts_at;
  ends_at = e.ends_at;
  all_day = e.all_day;
  timezone = e.timezone;
  location = e.location;
  attendees = e.attendees;
  recurrence = e.recurrence;
  recurrence_until = e.recurrence_until;
}

abbrev pub is_unmapped : ℕ → ℕ → List Mapping → EventRow → Bool
is_unmapped user calendar mappings e =
    e.user_id == user
    && e.event.calendar_id == calendar
    && not (any (stands_for e.event.id) mappings)

abbrev pub is_due : Option ℕ → ℕ → Bool
is_due none now = true
is_due (some until) now = leb until now

-- The WHERE clause of the mappings to push.
unfoldable pub is_pushable : ℕ → ℕ → ℕ → Mapping → Bool
is_pushable now user calendar m =
    m.user_id == user
    && m.calendar_id == calendar
    && (m.local_dirty || m.local_deleted)
    && not m.unresolved
    && not m.delete_resolution_pending
    && is_due m.deletion_hold_until now

abbrev pub with_id : Text → GoogleEventWrite → GoogleEventWrite
with_id id body = record body { id = some id }

abbrev unwrap_or : Option Text → Text → Text
unwrap_or none d = d
unwrap_or (some s) d = s

abbrev pub pushed_baseline : ℕ → Option Text → Text → Mapping → Mapping
pushed_baseline now etag fingerprint m = record m {
  external_etag = etag;
  base_fingerprint = some fingerprint;
  local_dirty = false;
  last_synced_at = some now;
}

-- The event that the mapping stands for, of the LEFT JOIN.
abbrev pub mapped_event : Mapping → Db → Option CalendarEvent
mapped_event m db = elim m.canonical_event_id [
  | none ↦ none
  | some id ↦ elim (find? (λ (e : EventRow). e.event.id == id) db.events) [
    | none ↦ none
    | some e ↦ some e.event
  ]
]

-- The reading of an event that Google says exists.
unfoldable pub existing : Reading → SyncResult GoogleEvent
existing missing = failure (google "Google Calendar request failed")
existing (unread error) = failure error
existing (read event) = success event

module _ (g : Codec) (api : Google) (now user : ℕ) (calendar : SyncCalendar) where
  unfoldable pub create_remote : Text → CalendarEvent → SyncResult GoogleEvent
  create_remote external e =
      elim (api.post calendar.external_id (with_id external (from_local g (local_event e)))) [
        | exists ↦ existing (api.get calendar.external_id external)
        | rejected error ↦ failure error
        | created remote ↦ success remote
      ]

  -- The mapping of an event that has been created at Google.
  abbrev pub pushed_mapping : ℕ → CalendarEvent → GoogleEvent → Mapping
  pushed_mapping id e remote = record {
    id = id;
    user_id = user;
    calendar_id = calendar.id;
    canonical_event_id = some e.id;
    external_calendar_id = calendar.external_id;
    external_event_id = unwrap_or remote.id (api.event_id e.id);
    external_etag = remote.etag;
    base_fingerprint = some (local_fingerprint g (local_event e));
    local_dirty = false;
    local_deleted = false;
    unresolved = false;
    pending_resolution = none;
    last_synced_at = some now;
    deletion_hold_until = none;
    reversible_tombstone = false;
    delete_resolution_pending = false;
  }

  -- The INSERT, with the unique constraints on the event at Google and on the event here.
  unfoldable pub insert_mapping : Mapping → Db → SyncResult Db
  insert_mapping m db =
      if any
        (λ (n : Mapping).
          is_external m.user_id m.external_calendar_id m.external_event_id n
          || option_test n.canonical_event_id m.canonical_event_id)
        db.mappings
      then failure refused
      else success (record db { next_id = suc db.next_id; mappings = db.mappings ++ m ∷ [] })

  unfoldable pub push_new : CalendarEvent → Db → SyncResult Db
  unfolding create_remote existing local_event insert_mapping
  push_new e db = do
    remote ← create_remote (api.event_id e.id) e
    inserted ← insert_mapping (pushed_mapping db.next_id e remote) db
    success (
        record_activity user "local_event_created" "Created a Google event from Prosepect" inserted)

  unfoldable pub push_deletion : Mapping → Db → SyncResult Db
  push_deletion m db = do
    api.delete calendar.external_id m.external_event_id m.external_etag
    success (
        record_activity user "local_event_deleted" "Deleted a Google event from Prosepect"
          (delete_mapping m.id db))

  unfoldable pub push_update : Mapping → CalendarEvent → Db → SyncResult Db
  unfolding local_event
  push_update m e db = do
    remote ←
        api.put calendar.external_id m.external_event_id m.external_etag
          (from_local g (local_event e))
    success (
        record_activity user "local_event_updated" "Updated a Google event from Prosepect" (
          set_mapping m.id (pushed_baseline now remote.etag (local_fingerprint g (local_event e)))
            db))

  -- One row of the query: the mapping, and its event at the time of the query.
  unfoldable pub push_mapping : Mapping × Option CalendarEvent → Db → SyncResult Db
  push_mapping (m, none) db = push_deletion m db
  push_mapping (m, some e) db = if m.local_deleted then push_deletion m db else push_update m e db

  unfoldable pub push_all_new : List EventRow → Db → Written
  push_all_new [] db = (db, none)
  push_all_new (e ∷ rest) db = and_continue (or_keep db (push_new e.event db)) (push_all_new rest)

  unfoldable pub push_all : List (Mapping × Option CalendarEvent) → Db → Written
  push_all [] db = (db, none)
  push_all (m ∷ rest) db = and_continue (or_keep db (push_mapping m db)) (push_all rest)

  abbrev pub joined : Db → List Mapping → List (Mapping × Option CalendarEvent)
  joined db [] = []
  joined db (m ∷ ms) = (m, mapped_event m db) ∷ joined db ms

  unfoldable pub push_calendar : Db → Written
  unfolding push_all_new push_all
  push_calendar db =
      and_continue (push_all_new (retain (is_unmapped user calendar.id db.mappings) db.events) db)
        λ created.
          push_all (joined created (retain (is_pushable now user calendar.id) created.mappings))
            created
