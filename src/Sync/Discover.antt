-- ===== src/Sync/Discover.antt =====
-- `discover_calendars` of apps/api/src/sync_service.rs, and the move of the scheduled tasks to the
-- preferred calendar of apps/api/src/calendar_store.rs that follows it.
use text.Mathlib.Text.{◌==◌ as str_eq}
use prosepect.Base.{
  ℕ, suc, Option, none, some, Bool, false, not, ◌&&◌, ◌||◌, List, [], ◌∷◌, ◌++◌, ◌==◌,
  if◌then◌else◌, option_test, list_eq, nat_eq, any, retain, length, update_where, Text, String,
  codes,
}
use prosepect.Error.{AppResult, ok, ◌>>=◌ as ◌>>>=◌}
use prosepect.Tasks.{Platform, RecurringTaskState}
use prosepect.Tasks.Validate.{is_some}
use prosepect.Store.{Db, Calendar, EventRow, google, is_google}
use prosepect.Store.Calendars.{all_hex}
use prosepect.Store.Blocks.{preferred_time_block_calendar, sync_task_calendar_event}
use prosepect.Sync.{SyncError, refused, SyncResult, success, failure, ◌>>=◌, ◌>>◌}
use prosepect.Sync.Canonical.{lift, drop_spaces, drop_last_spaces, is_between, record_activity}
use prosepect.Sync.Pull.{Written, and_continue, or_keep}

pub record GoogleCalendar : Type 0 where
  pub id : Text
  pub summary : Text
  pub background_color : Option Text
  pub selected : Option Bool
  pub primary : Option Bool
  pub access_role : Option String

pub record GoogleCalendarList : Type 0 where
  pub items : List GoogleCalendar
  pub next_page_token : Option Text

abbrev pub or_false : Option Bool → Bool
or_false none = false
or_false (some b) = b

abbrev pub or_text : Option Text → String → Text
or_text none d = codes d
or_text (some s) d = s

abbrev pub or_string : Option String → String → String
or_string none d = d
or_string (some s) d = s

-- `color ~ '^#[0-9a-fA-F]{6}$'`
abbrev pub is_color : Text → Bool
is_color [] = false
is_color (c ∷ s) = c == b'#' && length s == 6 && all_hex s

-- The CHECK constraints of `calendars`.
unfoldable pub is_storable : GoogleCalendar → Bool
unfolding drop_spaces drop_last_spaces
is_storable c =
    is_between 1 120 (drop_last_spaces (drop_spaces c.summary))
    && is_color (or_text c.background_color "#4285f4")
    && (str_eq (or_string c.access_role "reader") "freeBusyReader"
        || str_eq (or_string c.access_role "reader") "reader"
        || str_eq (or_string c.access_role "reader") "writer"
        || str_eq (or_string c.access_role "reader") "owner")

abbrev pub is_same_calendar : ℕ → Text → Calendar → Bool
is_same_calendar user external c =
    c.user_id == user && is_google c.source && option_test c.external_id (some external)

abbrev pub discovered : ℕ → ℕ → ℕ → GoogleCalendar → Calendar
discovered id now user g = record {
  id = id;
  user_id = user;
  name = g.summary;
  color = or_text g.background_color "#4285f4";
  source = google;
  external_id = some g.id;
  selected = or_false g.selected || or_false g.primary;
  is_default = false;
  provider_primary = or_false g.primary;
  access_role = or_string g.access_role "reader";
  sync_token = none;
  last_synced_at = none;
  last_sync_error = none;
  created_at = now;
  updated_at = now;
  version = 1;
}

-- DO UPDATE SET: the user's choice of the calendars stays.
abbrev pub rediscovered : ℕ → GoogleCalendar → Calendar → Calendar
rediscovered now g c = record c {
  name = g.summary;
  color = or_text g.background_color "#4285f4";
  provider_primary = or_false g.primary;
  access_role = or_string g.access_role "reader";
  updated_at = now;
}

unfoldable pub upsert_calendar : ℕ → ℕ → GoogleCalendar → Db → SyncResult Db
upsert_calendar now user g db =
    if not (is_storable g)
    then failure refused
    else success (
        if any (is_same_calendar user g.id) db.calendars
        then record db {
          calendars = update_where (is_same_calendar user g.id) (rediscovered now g) db.calendars;
        }
        else record db {
          next_id = suc db.next_id;
          calendars = db.calendars ++ discovered db.next_id now user g ∷ [];
        })

-- The WHERE clause of the tasks to move.
abbrev pub is_elsewhere : ℕ → ℕ → List EventRow → RecurringTaskState → Bool
is_elsewhere user calendar events t =
    t.user_id == user
    && is_some t.task.scheduled_start
    && is_some t.task.scheduled_end
    && not (
        any
          (λ (e : EventRow).
            option_test e.event.linked_task_id (some t.task.id) && e.event.calendar_id == calendar)
          events)

module _ (p : Platform) (now user : ℕ) where
  unfoldable pub migrate_each : List RecurringTaskState → Db → AppResult Db
  migrate_each [] db = ok db
  migrate_each (t ∷ ts) db = sync_task_calendar_event p now user t.task db >>>= migrate_each ts

  -- With the number of the tasks.
  unfoldable pub migrate_scheduled_tasks_to_preferred_calendar : Db → AppResult (Db × ℕ)
  unfolding migrate_each preferred_time_block_calendar
  migrate_scheduled_tasks_to_preferred_calendar db =
      let (chosen, calendar) = preferred_time_block_calendar now user db in
      let tasks = retain (is_elsewhere user calendar chosen.events) chosen.tasks in
      migrate_each tasks chosen >>>= λ migrated. ok (migrated, length tasks)

  unfoldable pub upsert_all : List GoogleCalendar → Db → Written
  unfolding upsert_calendar
  upsert_all [] db = (db, none)
  upsert_all (g ∷ gs) db = and_continue (or_keep db (upsert_calendar now user g db)) (upsert_all gs)

  -- The loop over the pages. What Google answers is the list of its answers, in their order; where
  -- they end, the request fails.
  unfoldable pub discover_pages : List (SyncResult GoogleCalendarList) → Db → Written
  unfolding upsert_all
  discover_pages [] db = (db, some (prosepect.Sync.google "Google Calendar request failed"))
  discover_pages (failure error ∷ answers) db = (db, some error)
  discover_pages (success page ∷ answers) db = and_continue (upsert_all page.items db) λ stored.
      elim page.next_page_token [
        | some token ↦ discover_pages answers stored
        | none ↦ (stored, none)
      ]

  -- The watch of the calendars, which follows the move of the tasks, is an argument.
  unfoldable pub discover_calendars :
      List (SyncResult GoogleCalendarList) → (Db → Written) → Db → Written
  unfolding discover_pages migrate_scheduled_tasks_to_preferred_calendar
  discover_calendars answers watch db = and_continue (discover_pages answers db) λ stored.
      and_continue
        (or_keep stored (
          lift (migrate_scheduled_tasks_to_preferred_calendar stored) >>= λ (migrated, n).
          success migrated))
        λ migrated. and_continue (watch migrated) λ watched.
          (record_activity user "calendar_discovery" "Google calendars refreshed" watched, none)
