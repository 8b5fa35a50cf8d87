-- ===== src/Sync/Choice.antt =====
-- `resolve_sync_conflict` of apps/api/src/sync_store.rs: what a pull of apps/api/src/sync_service.rs
-- does after the choice of Google's side.
use prosepect.Base.{
  ℕ, ◌≡◌, refl, ap, ◌∙◌, ◌⊎◌, inl, inr, none, some, Bool, false, ◌&&◌, ◌==◌, Bool-cases, any, find?,
  find?-update_where, List, [], ◌∷◌, Text, String, arith,
}
use prosepect.Error.{ok, database, ok_or, >>=-eq-ok}
use prosepect.Tasks.{Platform}
use prosepect.Store.{Db, Mapping, SyncConflict, keep_google, EventRow, is_event}
use prosepect.Sync.{success, GoogleEvent, NormalizedEvent, Codec}
use prosepect.Sync.Google.{normalize_event}
use prosepect.Sync.Apply.{SyncCalendar, is_cancelled, apply_remote_event, same_etag, is_external}
use prosepect.Sync.Canonical.{set_mapping, has_mapping_id}
use prosepect.Sync.Converge.{Ready, unlinked, linked, Settled, apply_remote_event-Settled}
use prosepect.Sync.Resolve.{
  parse_resolution, is_open, is_held, release, arm, settle, resolve_sync_conflict,
}

-- The conflict of a mapping that is a tombstone is held.
found-is_held :
    (test : Mapping → Bool) (mapping : ℕ) (ms : List Mapping) (m : Mapping)
    → find? test ms ≡ some m
    → m.id ≡ mapping
    → any (λ (n : Mapping). n.id == mapping && n.reversible_tombstone) ms ≡ false
    → m.reversible_tombstone ≡ false
found-is_held test mapping [] m found same free = cc
found-is_held test mapping (n ∷ ms) m found same free = elim (Bool-cases (test n)) [
  | inl hit ↦
      let own : n ≡ m = cc (rw hit at found) in
      rw (← own) (ground (arith, ap (λ (k : Mapping). k.id) own, same, free))
  | inr miss ↦ found-is_held test mapping ms m (rw miss at found) same (ground (arith, free))
]

module _ (p : Platform) (now user : ℕ) (calendar : SyncCalendar) (external : Text)
    (event : GoogleEvent) (m : Mapping) where
  -- The mapping after the choice of Google's side.
  settled-Ready :
      (db released : Db) (c : SyncConflict) (name : String) (number : ℕ) (held : Mapping)
      → released.events ≡ db.events
      → find? (is_external user calendar.external_id external) released.mappings ≡ some held
      → held.id ≡ c.mapping_id
      → held.reversible_tombstone ≡ false
      → held.canonical_event_id ≡ m.canonical_event_id
      → same_etag none event.etag ≡ false
      → (m.canonical_event_id ≡ none)
        ⊎ ((linked_id : ℕ) × (m.canonical_event_id ≡ some linked_id)
            × ((row : EventRow) × (find? (is_event user linked_id) db.events ≡ some row)))
      → Ready user calendar external event (settle p now user c keep_google name number released)
  unfolding settle
  settled-Ready db released c name number held events found own free link etag here = elim here [
    | inl nothing ↦
        unlinked (arm keep_google held)
          (find?-update_where (is_external user calendar.external_id external)
            (has_mapping_id c.mapping_id) (arm keep_google) released.mappings held (λ y. refl) found
            (ground (arith, own)))
          (record { untouched = refl; kept = refl; active = free }) etag (link ∙ nothing)
    | inr (linked_id, is_linked, (row, stored)) ↦
        linked (arm keep_google held) linked_id row
          (find?-update_where (is_external user calendar.external_id external)
            (has_mapping_id c.mapping_id) (arm keep_google) released.mappings held (λ y. refl) found
            (ground (arith, own)))
          (record { untouched = refl; kept = refl; active = free }) etag (link ∙ is_linked)
          (rw events stored)
  ]

  -- After the choice of Google's side, nothing here stands against the event at Google.
  resolve_sync_conflict-Ready :
      (id : ℕ) (db db' : Db) (c c' : SyncConflict)
      → find? (is_open user id) db.conflicts ≡ some c
      → find? (is_external user calendar.external_id external) db.mappings ≡ some m
      → m.id ≡ c.mapping_id
      → same_etag none event.etag ≡ false
      → (m.canonical_event_id ≡ none)
        ⊎ ((linked_id : ℕ) × (m.canonical_event_id ≡ some linked_id)
            × ((row : EventRow) × (find? (is_event user linked_id) db.events ≡ some row)))
      → resolve_sync_conflict p now user id "google" db ≡ ok (db', c')
      → Ready user calendar external event db'
  unfolding resolve_sync_conflict parse_resolution is_held
  resolve_sync_conflict-Ready id db db' c c' ours found own etag here h =
      elim (Bool-cases (is_held c db)) [
        | inl held ↦
            let (n, _, h1) =
              >>=-eq-ok
                (ok_or
                  (find? (has_mapping_id c.mapping_id)
                    (set_mapping c.mapping_id release db).mappings)
                  (database none))
                _ (rw (ours, held) at h) in
            let made =
              settle p now user c keep_google "google" n.calendar_id
                (set_mapping c.mapping_id release db) in
            let same : made ≡ db' = cc h1 in
            rw (← same) (
              settled-Ready db (set_mapping c.mapping_id release db) c "google" n.calendar_id
                (release m) refl
                (find?-update_where (is_external user calendar.external_id external)
                  (has_mapping_id c.mapping_id) release db.mappings m (λ y. refl) found
                  (ground (arith, own)))
                own refl refl etag here)
        | inr free ↦
            let (n, _, h1) =
              >>=-eq-ok (ok_or (find? (has_mapping_id c.mapping_id) db.mappings) (database none)) _
                (rw (ours, free) at h) in
            let same : settle p now user c keep_google "google" n.calendar_id db ≡ db' = cc h1 in
            rw (← same) (
              settled-Ready db db c "google" n.calendar_id m refl found own
                (found-is_held (is_external user calendar.external_id external) c.mapping_id
                  db.mappings m found own free)
                refl etag here)
      ]

  -- After the choice of Google's side of a conflict, Google's event is here once a pull has applied it,
  -- at whatever time and where that succeeds, whatever stood against it here: its mapping has its etag
  -- and its fingerprint, and no change to push, and the event that the mapping names is the user's, in
  -- the calendar, with its content. Google's event has an etag and is not cancelled, and what its
  -- mapping names at the time of the choice, if anything, is an event of the user.
  pub apply_remote_event-resolve_sync_conflict :
      (g : Codec) (later id : ℕ) (db db' db'' : Db) (c c' : SyncConflict)
      → find? (is_open user id) db.conflicts ≡ some c
      → find? (is_external user calendar.external_id external) db.mappings ≡ some m
      → m.id ≡ c.mapping_id
      → event.id ≡ some external
      → is_cancelled event ≡ false
      → same_etag none event.etag ≡ false
      → (m.canonical_event_id ≡ none)
        ⊎ ((linked_id : ℕ) × (m.canonical_event_id ≡ some linked_id)
            × ((row : EventRow) × (find? (is_event user linked_id) db.events ≡ some row)))
      → resolve_sync_conflict p now user id "google" db ≡ ok (db', c')
      → apply_remote_event g later user calendar event db' ≡ success db''
      → (e : NormalizedEvent) × (normalize_event g event ≡ success e)
        × Settled g user calendar external event e db''
  apply_remote_event-resolve_sync_conflict g later id db db' db'' c c' ours found own named alive
        etag here h =
      apply_remote_event-Settled g later user calendar external event db' db'' named alive
        (resolve_sync_conflict-Ready id db db' c c' ours found own etag here h)
