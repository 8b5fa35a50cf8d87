-- ===== src/Store.antt =====
-- The tables that the operations on tasks and events of apps/api/src/store.rs and
-- apps/api/src/calendar_store.rs read and write, with what the schema adds to a statement.
pub mod Changes
pub mod Blocks
pub mod Relations
pub mod Ancestors
pub mod Pages
pub mod Projects
pub mod Series
pub mod Tasks
pub mod Events
pub mod Calendars
pub mod Versions
pub mod Order
pub mod Frame
pub mod Successor
pub mod Stored
pub mod Invariant
pub mod Reach
pub mod Deletion
pub mod Examples
use prosepect.Base.{
  ℕ, zero, suc, ◌+◌, ◌≡◌, String, Option, none, some, Bool, true, false, not, ◌&&◌, List, [], ◌∷◌,
  ltb, if◌then◌else◌, option_test, nat_eq, ◌==◌, Text, delete_where, update_where,
}
use prosepect.Error.{AppResult, ok, err, database}
use prosepect.Jobs.{SyncJob, ActivityEntry}
use prosepect.Tasks.{RecurringTaskState}

pub data CalendarSource : Type 0 where
  native google : CalendarSource

abbrev pub is_google : CalendarSource → Bool
is_google google = true
is_google native = false

-- A row of `calendars`.
pub record Calendar : Type 0 where
  pub id : ℕ
  pub user_id : ℕ
  pub name : Text
  pub color : Text
  pub source : CalendarSource
  pub external_id : Option Text
  pub selected : Bool
  pub is_default : Bool
  pub provider_primary : Bool
  pub access_role : String
  pub sync_token : Option Text
  pub last_synced_at : Option ℕ
  pub last_sync_error : Option Text
  pub created_at : ℕ
  pub updated_at : ℕ
  pub version : ℕ

pub data EventRecurrence : Type 0 where
  once daily weekly monthly yearly : EventRecurrence

pub record CalendarEvent : Type 0 where
  pub id : ℕ
  pub calendar_id : ℕ
  pub linked_task_id : Option ℕ
  pub title : Text
  pub description : Text
  pub starts_at : ℕ
  pub ends_at : ℕ
  pub all_day : Bool
  pub timezone : Text
  pub location : Text
  pub attendees : List Text
  pub recurrence : EventRecurrence
  pub recurrence_until : Option ℕ
  pub created_at : ℕ
  pub updated_at : ℕ
  pub version : ℕ

-- A row of `calendar_events`, without the provider's etag: the event and its owner.
pub record EventRow : Type 0 where
  pub event : CalendarEvent
  pub user_id : ℕ

-- The choices for a conflict of a local change with one at Google; `app` is "prosepect". A user's
-- setting may also be to ask, a resolution not.
pub data Policy : Type 0 where
  ask latest keep_google app : Policy

-- A row of `external_event_mappings`: a Google event, the event that stands for it here, and what
-- the next synchronization has to do with it. The provider is always Google.
pub record Mapping : Type 0 where
  pub id : ℕ
  pub user_id : ℕ
  pub calendar_id : ℕ
  pub canonical_event_id : Option ℕ
  pub external_calendar_id : Text
  pub external_event_id : Text
  pub external_etag : Option Text
  pub base_fingerprint : Option Text
  pub local_dirty : Bool
  pub local_deleted : Bool
  pub unresolved : Bool
  pub pending_resolution : Option Policy
  pub last_synced_at : Option ℕ
  pub deletion_hold_until : Option ℕ
  pub reversible_tombstone : Bool
  pub delete_resolution_pending : Bool

-- A row of `sync_conflicts`; it is resolved when it has a resolution and the instant of it.
pub record SyncConflict : Type 0 where
  pub id : ℕ
  pub user_id : ℕ
  pub mapping_id : ℕ
  pub canonical_event_id : Option ℕ
  pub title : Text
  pub resolution : Option Policy
  pub created_at : ℕ
  pub resolved_at : Option ℕ

-- A row of `google_task_connections`, without the cursors.
pub record TaskConnection : Type 0 where
  pub user_id : ℕ
  pub enabled : Bool
  pub last_synced_at : Option ℕ
  pub change_revision : ℕ

-- The database, with the identifier that the next draw gives. Users have a time zone and a policy for
-- conflicts; projects and labels are what the operations here read of them, with their owner.
pub record Db : Type 0 where
  pub next_id : ℕ
  pub users : List (ℕ × Text)
  pub projects : List (ℕ × ℕ)
  pub tasks : List RecurringTaskState
  pub labels : List (ℕ × Text)
  pub calendars : List Calendar
  pub events : List EventRow
  pub mappings : List Mapping
  pub jobs : List SyncJob
  pub conflicts : List SyncConflict
  pub activity : List ActivityEntry
  pub policies : List (ℕ × Policy)
  pub task_connections : List TaskConnection

-- `version + 1` of an INTEGER column.
unfoldable pub next_version : ℕ → AppResult ℕ
next_version v =
    if ltb v 2147483647
    then ok (v + 1)
    else err (database (some (record { constraint = none; code = some "22003" })))

abbrev pub is_task : ℕ → ℕ → RecurringTaskState → Bool
is_task user id t = t.task.id == id && t.user_id == user

abbrev pub is_event : ℕ → ℕ → EventRow → Bool
is_event user id e = e.event.id == id && e.user_id == user

abbrev pub is_calendar : ℕ → ℕ → Calendar → Bool
is_calendar user id c = c.id == id && c.user_id == user

abbrev pub stands_for : ℕ → Mapping → Bool
stands_for id m = option_test m.canonical_event_id (some id)

abbrev pub forget_event : Mapping → Mapping
forget_event m = record m { canonical_event_id = none }

abbrev pub is_about : ℕ → SyncConflict → Bool
is_about id c = option_test c.canonical_event_id (some id)

abbrev pub forget_conflict_event : SyncConflict → SyncConflict
forget_conflict_event c = record c { canonical_event_id = none }

-- `DELETE FROM calendar_events`, with ON DELETE SET NULL of the mappings and conflicts.
unfoldable pub drop_event : ℕ → ℕ → Db → Db
drop_event user id db = record db {
  events = delete_where (is_event user id) db.events;
  mappings = update_where (stands_for id) forget_event db.mappings;
  conflicts = update_where (is_about id) forget_conflict_event db.conflicts;
}
