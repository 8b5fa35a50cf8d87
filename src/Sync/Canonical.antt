-- ===== src/Sync/Canonical.antt =====
-- apps/api/src/sync_service.rs: the statements by which a Google event becomes one here, and those on
-- its mapping.
use prosepect.Base.{
  ℕ, suc, Option, none, some, Bool, true, false, not, ◌&&◌, ◌||◌, List, [], ◌∷◌, ◌++◌, ◌==◌, ltb,
  leb, if◌then◌else◌, nat_eq, length, any, find?, update_where, delete_where, Text, String,
}
use prosepect.Error.{AppResult, ok, err, panicked}
use prosepect.Tasks.{RecurringTaskState}
use prosepect.Store.{
  Db, CalendarEvent, Mapping, SyncConflict, next_version, drop_event, is_event, is_task,
}
use prosepect.Store.Changes.{is_shown_change, enqueue_google_tasks_change}
use prosepect.Store.Events.{set_schedule, is_once}
use prosepect.Tasks.Validate.{is_some}
use prosepect.Sync.{
  database, refused, SyncResult, success, failure, ◌>>=◌, GoogleEvent, NormalizedEvent, Codec,
}
use prosepect.Sync.Google.{local_fingerprint}

-- A result of the API's own functions; a panic has no value here, and none of those called panics.
abbrev pub lift {ℓ} : {A : Type ℓ} → AppResult A → SyncResult A
lift (ok a) = success a
lift (err e) = failure (database e)
lift panicked = failure refused

-- PostgreSQL's TRIM, which takes spaces only.
unfoldable pub drop_spaces : Text → Text
drop_spaces [] = []
drop_spaces (c ∷ s) = let rest = drop_spaces s in if c == 0x20 then rest else c ∷ s

abbrev space_before : ℕ → Text → Text
space_before c [] = if c == 0x20 then [] else c ∷ []
space_before c (d ∷ s) = c ∷ d ∷ s

unfoldable pub drop_last_spaces : Text → Text
drop_last_spaces [] = []
drop_last_spaces (c ∷ s) = space_before c (drop_last_spaces s)

abbrev pub is_between : ℕ → ℕ → Text → Bool
is_between low high s = leb low (length s) && leb (length s) high

-- The CHECK constraints of `calendar_events`.
unfoldable pub passes_checks : NormalizedEvent → Bool
unfolding drop_spaces drop_last_spaces
passes_checks e =
    is_between 1 240 (drop_last_spaces (drop_spaces e.title))
    && leb (length e.description) 10_000
    && is_between 1 64 e.timezone
    && leb (length e.location) 500
    && ltb e.starts_at e.ends_at
    && (not (is_once e.recurrence) || not (is_some e.recurrence_until))

unfoldable pub new_canonical : ℕ → ℕ → ℕ → NormalizedEvent → CalendarEvent
new_canonical id now calendar e = record {
  id = id;
  calendar_id = calendar;
  linked_task_id = none;
  title = e.title;
  description = e.description;
  starts_at = e.starts_at;
  ends_at = e.ends_at;
  all_day = e.all_day;
  timezone = e.timezone;
  location = e.location;
  attendees = e.attendees;
  recurrence = e.recurrence;
  recurrence_until = e.recurrence_until;
  created_at = now;
  updated_at = now;
  version = 1;
}

-- The caller has drawn the identifier.
unfoldable pub insert_canonical_event : ℕ → ℕ → ℕ → ℕ → NormalizedEvent → Db → SyncResult Db
insert_canonical_event id now user calendar e db =
    if passes_checks e
    then success (record db {
      events = db.events ++ record { event = new_canonical id now calendar e; user_id = user } ∷ [];
    })
    else failure refused

unfoldable pub write_canonical : ℕ → ℕ → NormalizedEvent → ℕ → CalendarEvent → CalendarEvent
write_canonical now calendar e version old = record old {
  calendar_id = calendar;
  title = e.title;
  description = e.description;
  starts_at = e.starts_at;
  ends_at = e.ends_at;
  all_day = e.all_day;
  timezone = e.timezone;
  location = e.location;
  attendees = e.attendees;
  recurrence = e.recurrence;
  recurrence_until = e.recurrence_until;
  updated_at = now;
  version = version;
}

abbrev pub rewrite_task : ℕ → NormalizedEvent → ℕ → RecurringTaskState → RecurringTaskState
rewrite_task now e version t = record t {
  task = record t.task {
    title = e.title;
    description = e.description;
    scheduled_start = some e.starts_at;
    scheduled_end = some e.ends_at;
    updated_at = now;
    version = version;
  };
}

-- The UPDATE of the task that the event is linked to, with the trigger on the tasks.
unfoldable pub update_linked_task : Codec → ℕ → ℕ → Option ℕ → NormalizedEvent → Db → SyncResult Db
update_linked_task g now user none e db = success db
update_linked_task g now user (some task) e db = elim (find? (is_task user task) db.tasks) [
  | none ↦ success db
  | some row ↦ lift (next_version row.task.version) >>= λ version. success (
      enqueue_google_tasks_change g.uuid_text now user
        (is_shown_change row.task (rewrite_task now e version row).task)
        (record db {
          tasks = update_where (is_task user task) (rewrite_task now e version) db.tasks;
        }))
]

unfoldable pub update_canonical_event : Codec → ℕ → ℕ → ℕ → ℕ → NormalizedEvent → Db → SyncResult Db
update_canonical_event g now user id calendar e db = elim (find? (is_event user id) db.events) [
  | none ↦ success db
  | some row ↦
      if not (passes_checks e)
      then failure refused
      else lift (next_version row.event.version) >>= λ version.
          update_linked_task g now user row.event.linked_task_id e (record db {
            events =
                update_where (is_event user id)
                  (λ x. record x { event = write_canonical now calendar e version x.event })
                  db.events;
          })
]

unfoldable pub delete_canonical_event : ℕ → ℕ → ℕ → Db → SyncResult Db
delete_canonical_event now user id db = elim (find? (is_event user id) db.events) [
  | none ↦ success db
  | some row ↦
      lift (set_schedule now user row.event.linked_task_id none none (drop_event user id db))
]

abbrev pub has_mapping_id : ℕ → Mapping → Bool
has_mapping_id id m = m.id == id

abbrev pub is_conflict_of : ℕ → SyncConflict → Bool
is_conflict_of mapping c = c.mapping_id == mapping

-- `UPDATE external_event_mappings SET ... WHERE id = $1`
abbrev pub set_mapping : ℕ → (Mapping → Mapping) → Db → Db
set_mapping id f db = record db { mappings = update_where (has_mapping_id id) f db.mappings }

-- `DELETE FROM external_event_mappings WHERE id = $1`; its conflicts go with it.
unfoldable pub delete_mapping : ℕ → Db → Db
delete_mapping id db = record db {
  mappings = delete_where (has_mapping_id id) db.mappings;
  conflicts = delete_where (is_conflict_of id) db.conflicts;
}

module _ (g : Codec) where
  abbrev pub baseline : ℕ → GoogleEvent → NormalizedEvent → Mapping → Mapping
  baseline now remote e m = record m {
    external_etag = remote.etag;
    base_fingerprint = some (local_fingerprint g e);
    local_dirty = false;
    local_deleted = false;
    pending_resolution = none;
    delete_resolution_pending = false;
    last_synced_at = some now;
  }

  unfoldable pub update_mapping_baseline : ℕ → ℕ → GoogleEvent → NormalizedEvent → Db → Db
  update_mapping_baseline now id remote e = set_mapping id (baseline now remote e)

unfoldable pub record_activity : ℕ → String → String → Db → Db
record_activity user kind message db = record db {
  activity = db.activity ++ record { user_id = user; kind = kind; message = message } ∷ [];
}

abbrev pub is_open_conflict : ℕ → SyncConflict → Bool
is_open_conflict mapping c = c.mapping_id == mapping && not (is_some c.resolution)

abbrev pub mark_unresolved : Mapping → Mapping
mark_unresolved m = record m { unresolved = true }

-- `ON CONFLICT (mapping_id) WHERE status = 'unresolved' DO NOTHING`
unfoldable pub insert_conflict : SyncConflict → List SyncConflict → List SyncConflict
insert_conflict c conflicts =
    if any (is_open_conflict c.mapping_id) conflicts then conflicts else conflicts ++ c ∷ []

unfoldable pub create_conflict : ℕ → ℕ → Mapping → Text → Db → Db
unfolding record_activity insert_conflict
create_conflict now user m title db =
    record_activity user "synchronization_conflict" "A calendar event needs a conflict decision" (
      set_mapping m.id mark_unresolved (record db {
        next_id = suc db.next_id;
        conflicts =
            insert_conflict
              (record {
                id = db.next_id;
                user_id = user;
                mapping_id = m.id;
                canonical_event_id = m.canonical_event_id;
                title = title;
                resolution = none;
                created_at = now;
                resolved_at = none;
              })
              db.conflicts;
      }))
