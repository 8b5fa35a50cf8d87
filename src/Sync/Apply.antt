-- ===== src/Sync/Apply.antt =====
-- `apply_remote_event` of apps/api/src/sync_service.rs: what an event that Google reports does here.
use text.Mathlib.Text.{◌==◌ as str_eq}
use prosepect.Base.{
  ℕ, suc, Option, none, some, Bool, true, false, not, ◌&&◌, ◌||◌, List, [], ◌∷◌, ◌++◌, ◌==◌, leb,
  if◌then◌else◌, option_test, list_eq, nat_eq, find?, Text, String, codes, text_eq,
}
use prosepect.Store.{Db, EventRow, Mapping, Policy, ask, latest, app}
use prosepect.Sync.{SyncResult, success, ◌>>=◌, GoogleEvent, NormalizedEvent, Codec}
use prosepect.Sync.Google.{normalize_event, local_fingerprint}
use prosepect.Sync.Canonical.{
  insert_canonical_event, update_canonical_event, delete_canonical_event, set_mapping,
  delete_mapping, update_mapping_baseline, record_activity, create_conflict,
}

-- The calendar's row as the synchronization reads it.
pub record SyncCalendar : Type 0 where
  pub id : ℕ
  pub external_id : Text
  pub sync_token : Option Text

abbrev pub is_ask : Policy → Bool
is_ask ask = true
is_ask _ = false

abbrev pub is_cancelled : GoogleEvent → Bool
is_cancelled e = elim e.status [ none ↦ false | some status ↦ str_eq status "cancelled" ]

abbrev pub title_or : Option Text → String → Text
title_or none d = codes d
title_or (some s) d = s

abbrev pub same_etag : Option Text → Option Text → Bool
same_etag = option_test

abbrev pub is_external : ℕ → Text → Text → Mapping → Bool
is_external user calendar event m =
    m.user_id == user
    && text_eq m.external_calendar_id calendar
    && text_eq m.external_event_id event

-- The user's setting, or to ask.
abbrev pub setting : ℕ → List (ℕ × Policy) → Policy
setting user [] = ask
setting user ((owner, policy) ∷ rest) = if owner == user then policy else setting user rest

unfoldable pub policy_of : ℕ → Mapping → Db → Policy
policy_of user m db = elim m.pending_resolution [
  | some resolution ↦ resolution
  | none ↦ setting user db.policies
]

-- `local_updated_at`, of the LEFT JOIN.
unfoldable pub local_updated_at : Mapping → Db → Option ℕ
local_updated_at m db = elim m.canonical_event_id [
  | none ↦ none
  | some id ↦ elim (find? (λ (e : EventRow). e.event.id == id) db.events) [
    | none ↦ none
    | some e ↦ some e.event.updated_at
  ]
]

-- `remote.zip(local).is_some_and(|(remote, local)| local >= remote)`
abbrev pub is_local_later : Option ℕ → Option ℕ → Bool
is_local_later (some remote) (some at) = leb remote at
is_local_later _ _ = false

unfoldable pub keeps_local : Policy → GoogleEvent → Option ℕ → Bool
keeps_local app event local_at = true
keeps_local latest event local_at = is_local_later event.updated local_at
keeps_local _ event local_at = false

abbrev pub clear_resolution : Mapping → Mapping
clear_resolution m = record m { pending_resolution = none }

abbrev pub link_event : ℕ → Mapping → Mapping
link_event id m = record m { canonical_event_id = some id }

-- A deletion at Google of an event whose task was deleted with Undo, or a change of it. The receipts
-- of the Undo are left out.
unfoldable pub apply_tombstone : ℕ → ℕ → Mapping → GoogleEvent → Db → Db
apply_tombstone now user m event db =
    if is_cancelled event
    then delete_mapping m.id db
    else if not (same_etag event.etag none) && same_etag m.external_etag event.etag
    then db
    else create_conflict now user m (title_or event.summary "Deleted task event") db

-- The event here, if there is one, the mapping and the activity.
unfoldable pub accept_deletion : ℕ → ℕ → Mapping → Db → SyncResult Db
accept_deletion now user m db =
    (elim m.canonical_event_id [
      | none ↦ success db
      | some id ↦ delete_canonical_event now user id db
    ])
    >>= λ deleted. success (
        record_activity user "remote_event_deleted" "Applied a Google event deletion"
          (delete_mapping m.id deleted))

unfoldable pub apply_deletion : ℕ → ℕ → Mapping → GoogleEvent → Db → SyncResult Db
apply_deletion now user m event db =
    let policy = policy_of user m db in
    if m.local_dirty && is_ask policy
    then success (create_conflict now user m (title_or event.summary "Deleted event") db)
    else if m.local_dirty && keeps_local policy event (local_updated_at m db)
    then success (delete_mapping m.id db)
    else accept_deletion now user m db

module _ (g : Codec) where
  unfoldable pub accept_change :
      ℕ → ℕ → ℕ → Mapping → GoogleEvent → NormalizedEvent → Db → SyncResult Db
  accept_change now user calendar m event e db =
      (elim m.canonical_event_id [
        | some id ↦ update_canonical_event g now user id calendar e db
        | none ↦
            insert_canonical_event db.next_id now user calendar e
              (record db { next_id = suc db.next_id })
            >>= λ inserted. success (set_mapping m.id (link_event db.next_id) inserted)
      ])
      >>= λ written. success (
          record_activity user "remote_event_applied" "Applied a Google event change"
            (update_mapping_baseline g now m.id event e written))

  unfoldable pub apply_change :
      ℕ → ℕ → ℕ → Mapping → GoogleEvent → NormalizedEvent → Db → SyncResult Db
  apply_change now user calendar m event e db =
      let policy = policy_of user m db in
      let touched = m.local_dirty || m.local_deleted in
      if same_etag m.external_etag event.etag
      then success db
      else if touched && is_ask policy
      then success (create_conflict now user m e.title db)
      else if touched && keeps_local policy event (local_updated_at m db)
      then success (set_mapping m.id clear_resolution db)
      else accept_change now user calendar m event e db

  unfoldable pub new_mapping :
      ℕ → ℕ → ℕ → SyncCalendar → ℕ → Text → GoogleEvent → NormalizedEvent → Mapping
  new_mapping id now user calendar event_id external event e = record {
    id = id;
    user_id = user;
    calendar_id = calendar.id;
    canonical_event_id = some event_id;
    external_calendar_id = calendar.external_id;
    external_event_id = external;
    external_etag = event.etag;
    base_fingerprint = some (local_fingerprint g e);
    local_dirty = false;
    local_deleted = false;
    unresolved = false;
    pending_resolution = none;
    last_synced_at = some now;
    deletion_hold_until = none;
    reversible_tombstone = false;
    delete_resolution_pending = false;
  }

  unfoldable pub import_event :
      ℕ → ℕ → SyncCalendar → Text → GoogleEvent → NormalizedEvent → Db → SyncResult Db
  import_event now user calendar external event e db = do
    inserted ←
        insert_canonical_event db.next_id now user calendar.id e
          (record db { next_id = suc db.next_id })
    success (
        record_activity user "remote_event_imported" "Imported an event from Google"
          (record inserted {
            next_id = suc inserted.next_id;
            mappings =
                inserted.mappings
                ++ new_mapping inserted.next_id now user calendar db.next_id external event e ∷ [];
          }))

  unfoldable pub apply_mapped : ℕ → ℕ → SyncCalendar → Mapping → GoogleEvent → Db → SyncResult Db
  apply_mapped now user calendar m event db =
      if m.reversible_tombstone
      then success (apply_tombstone now user m event db)
      else if is_cancelled event
      then apply_deletion now user m event db
      else normalize_event g event >>= λ e. apply_change now user calendar.id m event e db

  unfoldable pub apply_unmapped : ℕ → ℕ → SyncCalendar → Text → GoogleEvent → Db → SyncResult Db
  apply_unmapped now user calendar external event db =
      if is_cancelled event
      then success db
      else normalize_event g event >>= λ e. import_event now user calendar external event e db

  unfoldable pub apply_remote_event : ℕ → ℕ → SyncCalendar → GoogleEvent → Db → SyncResult Db
  apply_remote_event now user calendar event db = elim event.id [
    | none ↦ success db
    | some external ↦ elim (find? (is_external user calendar.external_id external) db.mappings) [
      | some m ↦ apply_mapped now user calendar m event db
      | none ↦ apply_unmapped now user calendar external event db
    ]
  ]
