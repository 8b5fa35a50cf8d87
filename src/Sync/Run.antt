-- ===== src/Sync/Run.antt =====
-- `sync_calendars` of apps/api/src/sync_service.rs: the pull and the push of each calendar of a user,
-- and between them the deletions that the user decided to leave to Google.
use prosepect.Base.{
  ℕ, suc, Option, none, some, Bool, true, false, not, ◌&&◌, List, [], ◌∷◌, ◌==◌, zero, any, leb,
  if◌then◌else◌, option_test, list_eq, nat_eq, retain, Text, delete_where,
}
use prosepect.Jobs.{left}
use prosepect.Store.{Db, Calendar, Mapping, SyncConflict, is_google}
use prosepect.Sync.{SyncError, google, SyncResult, success, failure, Codec}
use prosepect.Sync.Canonical.{has_mapping_id}
use prosepect.Sync.Apply.{SyncCalendar, apply_remote_event}
use prosepect.Sync.Pull.{Answer, Written, and_continue, or_keep, set_calendar, pull_calendar}
use prosepect.Sync.Push.{Google, missing, unread, read, push_calendar}

abbrev is_none : Option ℕ → Bool
is_none none = true
is_none (some n) = false

-- The WHERE clause of the resolutions that wait for Google.
unfoldable pub is_pending : ℕ → ℕ → Mapping → Bool
is_pending user calendar m =
    m.user_id == user
    && m.calendar_id == calendar
    && m.delete_resolution_pending
    && not m.local_dirty
    && not m.local_deleted
    && is_none m.canonical_event_id

-- `ORDER BY id`
abbrev pub insert_by_id : Mapping → List Mapping → List Mapping
insert_by_id m [] = m ∷ []
insert_by_id m (n ∷ ns) =
    let rest = insert_by_id m ns in if leb m.id n.id then m ∷ n ∷ ns else n ∷ rest

abbrev pub sort_by_id : List Mapping → List Mapping
sort_by_id [] = []
sort_by_id (m ∷ ms) = insert_by_id m (sort_by_id ms)

abbrev pub take : ℕ → List Mapping → List Mapping
take zero ms = []
take (suc n) [] = []
take (suc n) (m ∷ ms) = m ∷ take n ms

-- A mapping, still pending, of which Google has no event; its conflicts go with it.
unfoldable pub settle_missing : ℕ → Db → Db
settle_missing id db = record db {
  mappings = delete_where (λ m. has_mapping_id id m && m.delete_resolution_pending) db.mappings;
  conflicts =
      delete_where
        (λ (c : SyncConflict).
          any (λ m. has_mapping_id id m && m.delete_resolution_pending) db.mappings
          && c.mapping_id == id)
        db.conflicts;
}

module _ (g : Codec) (api : Google) (now user : ℕ) (calendar : SyncCalendar) where
  unfoldable pub reconcile_one : Mapping → Db → SyncResult Db
  reconcile_one m db = elim (api.get calendar.external_id m.external_event_id) [
    | missing ↦ success (settle_missing m.id db)
    | unread error ↦ failure error
    | read event ↦
        if option_test event.id (some m.external_event_id)
        then apply_remote_event g now user calendar event db
        else failure (google "Google resolution returned a different identity")
  ]

  unfoldable pub reconcile_each : List Mapping → Db → Written
  reconcile_each [] db = (db, none)
  reconcile_each (m ∷ ms) db = and_continue (or_keep db (reconcile_one m db)) (reconcile_each ms)

  unfoldable pub reconcile_deleted_task_resolution : Db → Written
  unfolding reconcile_each
  reconcile_deleted_task_resolution db =
      reconcile_each (take 100 (sort_by_id (retain (is_pending user calendar.id) db.mappings))) db

abbrev pub is_own_calendar : ℕ → ℕ → Calendar → Bool
is_own_calendar user id c = c.id == id && c.user_id == user

abbrev pub set_error : Text → Calendar → Calendar
set_error message c = record c { last_sync_error = some (left 2000 message) }

abbrev pub set_synced : ℕ → Calendar → Calendar
set_synced now c = record c { last_synced_at = some now; last_sync_error = none }

abbrev is_only : Option ℕ → ℕ → Bool
is_only none id = true
is_only (some only) id = id == only

-- The WHERE clause of the calendars to synchronize.
unfoldable pub is_synced : ℕ → Option ℕ → Calendar → Bool
is_synced user only c = c.user_id == user && is_google c.source && c.selected && is_only only c.id

abbrev unwrap_or : Option Text → Text → Text
unwrap_or none d = d
unwrap_or (some s) d = s

-- The schema gives every calendar of Google an identifier there.
abbrev pub to_sync : Calendar → SyncCalendar
to_sync c = record {
  id = c.id;
  external_id = unwrap_or c.external_id [];
  sync_token = c.sync_token;
}

-- The text of an error, what Google answers to the pull of each calendar, and its other answers.
module _ (g : Codec) (describe : SyncError → Text) (answers : SyncCalendar → List Answer)
    (api : Google) (now user : ℕ) where
  -- One turn of the loop over the calendars: the pull, what follows it, and its report.
  unfoldable pub sync_calendar : SyncCalendar → Db → Written
  unfolding reconcile_deleted_task_resolution
  sync_calendar calendar db =
      let (pulled, result) = pull_calendar g now user calendar (answers calendar) db in
      elim result [
        | some error ↦ (
          set_calendar (is_own_calendar user calendar.id) (set_error (describe error)) pulled,
          some error,
        )
        | none ↦
            and_continue (reconcile_deleted_task_resolution g api now user calendar pulled)
              λ reconciled.
                and_continue (push_calendar g api now user calendar reconciled) λ pushed.
                  (set_calendar (is_own_calendar user calendar.id) (set_synced now) pushed, none)
      ]

  unfoldable pub sync_each : List Calendar → Db → Written
  sync_each [] db = (db, none)
  sync_each (c ∷ cs) db = and_continue (sync_calendar (to_sync c) db) (sync_each cs)

  unfoldable pub sync_calendars : Option ℕ → Db → Written
  unfolding sync_each
  sync_calendars only db = sync_each (retain (is_synced user only) db.calendars) db
