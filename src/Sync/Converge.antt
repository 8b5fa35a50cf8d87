-- ===== src/Sync/Converge.antt =====
-- What `apply_remote_event` of apps/api/src/sync_service.rs leaves of an event that nothing here
-- stands against: its content, and a mapping that knows the event's state at Google.
use prosepect.Base.{
  ℕ, suc, ◌≡◌, refl, none, some, true, false, ==_refl, find?, find?-update_where, find?-append, Has,
  [], ◌∷◌, ◌++◌, Text, text_eq_refl, option_test_iff, list_eq, nat_eq,
}
use prosepect.Store.{Db, Mapping, EventRow, is_event}
use prosepect.Sync.{success, GoogleEvent, NormalizedEvent, Codec}
use prosepect.Sync.Google.{normalize_event, local_fingerprint}
use prosepect.Sync.Canonical.{
  create_conflict, insert_canonical_event, update_canonical_event, set_mapping, has_mapping_id,
  baseline, update_mapping_baseline, record_activity,
}
use prosepect.Sync.Apply.{
  SyncCalendar, is_cancelled, same_etag, is_external, policy_of, local_updated_at, keeps_local,
  link_event, apply_change, apply_mapped, apply_unmapped, apply_remote_event, accept_change,
  new_mapping, import_event,
}
use prosepect.Sync.Protect.{>>=-eq-success}
use prosepect.Sync.Placed.{Mirrors, Placed, update-Placed, insert-Placed}

-- Nothing here stands against a change of it at Google.
pub record IsClean (m : Mapping) : Type 0 where
  pub untouched : m.local_dirty ≡ false
  pub kept : m.local_deleted ≡ false
  pub active : m.reversible_tombstone ≡ false

-- The mapping of the event, which does not know this state of it, and the event that it stands for.
pub data Ready (user : ℕ) (calendar : SyncCalendar) (external : Text) (event : GoogleEvent)
    (db : Db) : Type 0 where
  unknown :
      find? (is_external user calendar.external_id external) db.mappings ≡ none
      → Ready user calendar external event db
  unlinked :
      (m : Mapping)
      → find? (is_external user calendar.external_id external) db.mappings ≡ some m
      → IsClean m
      → same_etag m.external_etag event.etag ≡ false
      → m.canonical_event_id ≡ none
      → Ready user calendar external event db
  linked :
      (m : Mapping) (id : ℕ) (row : EventRow)
      → find? (is_external user calendar.external_id external) db.mappings ≡ some m
      → IsClean m
      → same_etag m.external_etag event.etag ≡ false
      → m.canonical_event_id ≡ some id
      → find? (is_event user id) db.events ≡ some row
      → Ready user calendar external event db

-- The mapping knows the event as it is at Google, and the event here that it names mirrors it.
pub record Settled (g : Codec) (user : ℕ) (calendar : SyncCalendar) (external : Text)
    (event : GoogleEvent) (e : NormalizedEvent) (db : Db) : Type 0 where
  pub mapping : Mapping
  pub found : find? (is_external user calendar.external_id external) db.mappings ≡ some mapping
  pub known : mapping.external_etag ≡ event.etag
  pub based : mapping.base_fingerprint ≡ some (local_fingerprint g e)
  pub clean : IsClean mapping
  pub id : ℕ
  pub link : mapping.canonical_event_id ≡ some id
  pub row : EventRow
  pub stored : Has row db.events
  pub mirrors : Mirrors user calendar.id id e row

module _ (g : Codec) (now user : ℕ) (calendar : SyncCalendar) (external : Text)
    (event : GoogleEvent) (e : NormalizedEvent) where
  -- The new state of the mapping of a row that has been placed.
  based-Settled :
      (db db' : Db) (m : Mapping) (id : ℕ)
      → Placed user calendar.id id e db db'
      → find? (is_external user calendar.external_id external) db'.mappings ≡ some m
      → m.canonical_event_id ≡ some id
      → IsClean m
      → Settled g user calendar external event e (
          record_activity user "remote_event_applied" "Applied a Google event change"
            (update_mapping_baseline g now m.id event e db'))
  unfolding record_activity update_mapping_baseline
  based-Settled db db' m id placed found link clean = record {
    mapping = baseline g now event e m;
    found =
        find?-update_where (is_external user calendar.external_id external) (has_mapping_id m.id)
          (baseline g now event e) db'.mappings m (λ y. refl) found (==_refl m.id);
    known = refl;
    based = refl;
    clean = record { untouched = refl; kept = refl; active = clean.active };
    id = id;
    link = link;
    row = placed.row;
    stored = placed.stored;
    mirrors = placed.mirrors;
  }

  linked-Settled :
      (db db' : Db) (m : Mapping) (id : ℕ) (row : EventRow)
      → find? (is_external user calendar.external_id external) db.mappings ≡ some m
      → IsClean m
      → m.canonical_event_id ≡ some id
      → find? (is_event user id) db.events ≡ some row
      → accept_change g now user calendar.id m event e db ≡ success db'
      → Settled g user calendar external event e db'
  unfolding accept_change
  linked-Settled db db' m id row found clean link stored h =
      let (written, updated, h1) =
        >>=-eq-success (update_canonical_event g now user id calendar.id e db) _
          (rw (accept_change, link) at h) in
      let placed = update-Placed g now user id calendar.id e db written row stored updated in
      let same : record_activity user "remote_event_applied" "Applied a Google event change"
            (update_mapping_baseline g now m.id event e written)
          ≡ db' =
        cc h1 in
      rw (← same) (based-Settled db written m id placed (rw placed.mappings found) link clean)

  unlinked-Settled :
      (db db' : Db) (m : Mapping)
      → find? (is_external user calendar.external_id external) db.mappings ≡ some m
      → IsClean m
      → m.canonical_event_id ≡ none
      → accept_change g now user calendar.id m event e db ≡ success db'
      → Settled g user calendar external event e db'
  unfolding accept_change
  unlinked-Settled db db' m found clean link h =
      let (written, inserted, h1) = >>=-eq-success _ _ (rw (accept_change, link) at h) in
      let (placed_db, placing, h2) =
        >>=-eq-success
          (insert_canonical_event db.next_id now user calendar.id e
            (record db { next_id = suc db.next_id }))
          _ inserted in
      let placed = insert-Placed now user calendar.id e db placed_db placing in
      let linked : set_mapping m.id (link_event db.next_id) placed_db ≡ written = cc h2 in
      let same : record_activity user "remote_event_applied" "Applied a Google event change"
            (update_mapping_baseline g now m.id event e written)
          ≡ db' =
        cc h1 in
      let relinked : Placed user calendar.id db.next_id e
          (set_mapping m.id (link_event db.next_id) db)
          (set_mapping m.id (link_event db.next_id) placed_db) =
        record {
          mappings = rw placed.mappings refl;
          row = placed.row;
          stored = placed.stored;
          mirrors = placed.mirrors;
        } in
      rw (← same, ← linked)
        (based-Settled (set_mapping m.id (link_event db.next_id) db)
          (set_mapping m.id (link_event db.next_id) placed_db) (link_event db.next_id m) db.next_id
          relinked
          (find?-update_where (is_external user calendar.external_id external) (has_mapping_id m.id)
            (link_event db.next_id) placed_db.mappings m (λ y. refl) (rw placed.mappings found)
            (==_refl m.id))
          refl (record { untouched = clean.untouched; kept = clean.kept; active = clean.active }))

  import-Settled :
      (db db' : Db)
      → find? (is_external user calendar.external_id external) db.mappings ≡ none
      → import_event g now user calendar external event e db ≡ success db'
      → Settled g user calendar external event e db'
  unfolding import_event new_mapping record_activity
  import-Settled db db' unknown_here h =
      let (written, inserted, h1) =
        >>=-eq-success
          (insert_canonical_event db.next_id now user calendar.id e
            (record db { next_id = suc db.next_id }))
          _ h in
      let placed = insert-Placed now user calendar.id e db written inserted in
      let m : Mapping =
        new_mapping g written.next_id now user calendar db.next_id external event e in
      let own : is_external user calendar.external_id external m ≡ true =
        rw (==_refl user, text_eq_refl calendar.external_id, text_eq_refl external) refl in
      let same : record_activity user "remote_event_imported" "Imported an event from Google"
            (record written {
              next_id = suc written.next_id;
              mappings = written.mappings ++ m ∷ [];
            })
          ≡ db' =
        cc h1 in
      rw (← same) (record {
        mapping = m;
        found =
            find?-append (is_external user calendar.external_id external) written.mappings m
              (rw placed.mappings unknown_here) own;
        known = refl;
        based = refl;
        clean = record { untouched = refl; kept = refl; active = refl };
        id = db.next_id;
        link = refl;
        row = placed.row;
        stored = placed.stored;
        mirrors = placed.mirrors;
      })

  change-Settled :
      (db db' : Db) (m : Mapping)
      → IsClean m
      → same_etag m.external_etag event.etag ≡ false
      → apply_change g now user calendar.id m event e db ≡ success db'
      → accept_change g now user calendar.id m event e db ≡ success db'
  unfolding apply_change policy_of keeps_local local_updated_at accept_change
  change-Settled db db' m clean changed h =
      rw (apply_change, changed, clean.untouched, clean.kept) at h

module _ (g : Codec) (now user : ℕ) (calendar : SyncCalendar) (external : Text)
    (event : GoogleEvent) where
  mapped-accepts :
      (db db' : Db) (m : Mapping)
      → is_cancelled event ≡ false
      → IsClean m
      → same_etag m.external_etag event.etag ≡ false
      → apply_mapped g now user calendar m event db ≡ success db'
      → (e : NormalizedEvent) × (normalize_event g event ≡ success e)
        × (accept_change g now user calendar.id m event e db ≡ success db')
  unfolding apply_mapped accept_change apply_change policy_of create_conflict local_updated_at
  mapped-accepts db db' m alive clean changed h =
      let (e, normal, h1) =
        >>=-eq-success (normalize_event g event) _ (rw (apply_mapped, clean.active, alive) at h) in
      (e, normal, change-Settled g now user calendar external event e db db' m clean changed h1)

  -- An event at Google that is not cancelled, and which nothing here stands against, is here after it
  -- has been applied, where that succeeds: its mapping has its etag and its fingerprint, and no change
  -- to push, and the event that the mapping names is the user's, in the calendar, with its content.
  pub apply_remote_event-Settled :
      (db db' : Db)
      → event.id ≡ some external
      → is_cancelled event ≡ false
      → Ready user calendar external event db
      → apply_remote_event g now user calendar event db ≡ success db'
      → (e : NormalizedEvent) × (normalize_event g event ≡ success e)
        × Settled g user calendar external event e db'
  unfolding apply_remote_event apply_unmapped
  apply_remote_event-Settled db db' named alive (unknown missing) h =
      let (e, normal, h1) =
        >>=-eq-success (normalize_event g event) _
          (rw (apply_remote_event, named, missing, apply_unmapped, alive) at h) in
      (e, normal, import-Settled g now user calendar external event e db db' missing h1)
  apply_remote_event-Settled db db' named alive (unlinked m found clean changed link) h =
      let (e, normal, h1) =
        mapped-accepts db db' m alive clean changed (rw (apply_remote_event, named, found) at h) in
      (
        e,
        normal,
        unlinked-Settled g now user calendar external event e db db' m found clean link h1,
      )
  apply_remote_event-Settled db db' named alive (linked m id row found clean changed link stored)
        h =
      let (e, normal, h1) =
        mapped-accepts db db' m alive clean changed (rw (apply_remote_event, named, found) at h) in
      (
        e,
        normal,
        linked-Settled g now user calendar external event e db db' m id row found clean link stored
            h1,
      )

  -- Such an event changes nothing when Google reports it again.
  pub apply_remote_event-idempotent :
      (later : ℕ) (db db' : Db)
      → event.id ≡ some external
      → is_cancelled event ≡ false
      → Ready user calendar external event db
      → apply_remote_event g now user calendar event db ≡ success db'
      → apply_remote_event g later user calendar event db' ≡ success db'
  unfolding apply_remote_event apply_mapped apply_change policy_of local_updated_at
  apply_remote_event-idempotent later db db' named alive ready h =
      let (e, normal, s) = apply_remote_event-Settled db db' named alive ready h in
      let same : same_etag s.mapping.external_etag event.etag ≡ true =
        (option_test_iff s.mapping.external_etag event.etag).1 s.known in
      rw
        (
          apply_remote_event, named, s.found, apply_mapped, s.clean.active, alive, normal,
          apply_change, same,
        )
        refl
