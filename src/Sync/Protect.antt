-- ===== src/Sync/Protect.antt =====
-- What `apply_remote_event` of apps/api/src/sync_service.rs never overwrites.
use prosepect.Base.{
  ℕ, ◌≡◌, refl, inl, inr, none, some, true, false, not, ◌&&◌, ◌||◌, Bool-cases, find?, Text, arith,
}
use prosepect.Store.{Db, Mapping}
use prosepect.Sync.{SyncResult, success, failure, ◌>>=◌, ◌>>◌, GoogleEvent, NormalizedEvent, Codec}
use prosepect.Sync.Google.{normalize_event}
use prosepect.Sync.Canonical.{delete_mapping, set_mapping, create_conflict}
use prosepect.Sync.Apply.{
  SyncCalendar, is_ask, is_cancelled, title_or, same_etag, is_external, policy_of, local_updated_at,
  keeps_local, clear_resolution, apply_tombstone, apply_deletion, apply_change, apply_mapped,
  apply_remote_event, accept_deletion, accept_change,
}

-- The events and the tasks are those that there were.
pub record SameContent (db db' : Db) : Type 0 where
  pub events : db'.events ≡ db.events
  pub tasks : db'.tasks ≡ db.tasks

pub >>=-eq-success {ℓ κ} :
    {A : Type ℓ} {B : Type κ} (first : SyncResult A) (rest : A → SyncResult B) {b : B}
    → (first >>= rest) ≡ success b
    → (a : A) × (first ≡ success a) × (rest a ≡ success b)
>>=-eq-success (failure e) rest h = cc
>>=-eq-success (success a) rest h = (a, refl, h)

pub >>-eq-success {ℓ} :
    {B : Type ℓ} (first : SyncResult (Unit {0})) (rest : SyncResult B) {b : B}
    → (first >> rest) ≡ success b
    → rest ≡ success b
>>-eq-success (failure e) rest h = cc
>>-eq-success (success done) rest h = h

-- A change here that the synchronization has to keep from Google's: a deletion with Undo, or a change
-- on which the user wants to be asked or that the policy prefers.
pub data Protected (user : ℕ) (m : Mapping) (event : GoogleEvent) (db : Db) : Type 0 where
  tombstone : m.reversible_tombstone ≡ true → Protected user m event db
  asked : m.local_dirty ≡ true → is_ask (policy_of user m db) ≡ true → Protected user m event db
  preferred :
      m.local_dirty ≡ true
      → keeps_local (policy_of user m db) event (local_updated_at m db) ≡ true
      → Protected user m event db

conflict-SameContent :
    (now user : ℕ) (m : Mapping) (title : Text) (db : Db)
    → SameContent db (create_conflict now user m title db)
unfolding create_conflict
conflict-SameContent now user m title db = record { events = refl; tasks = refl }

delete-SameContent : (id : ℕ) (db : Db) → SameContent db (delete_mapping id db)
unfolding delete_mapping
delete-SameContent id db = record { events = refl; tasks = refl }

tombstone-SameContent :
    (now user : ℕ) (m : Mapping) (event : GoogleEvent) (db : Db)
    → SameContent db (apply_tombstone now user m event db)
unfolding apply_tombstone
tombstone-SameContent now user m event db = elim (Bool-cases (is_cancelled event)) [
  | inl cancelled ↦ rw cancelled (delete-SameContent m.id db)
  | inr alive ↦
      elim (Bool-cases (not (same_etag event.etag none) && same_etag m.external_etag event.etag)) [
        | inl same ↦ rw (alive, same) (record { events = refl; tasks = refl })
        | inr other ↦
            rw (alive, other)
              (conflict-SameContent now user m (title_or event.summary "Deleted task event") db)
      ]
]

deletion-SameContent :
    (now user : ℕ) (m : Mapping) (event : GoogleEvent) (db db' : Db)
    → m.local_dirty ≡ true
    → (is_ask (policy_of user m db)
        || keeps_local (policy_of user m db) event (local_updated_at m db))
      ≡ true
    → apply_deletion now user m event db ≡ success db'
    → SameContent db db'
unfolding apply_deletion policy_of keeps_local local_updated_at delete_mapping accept_deletion
deletion-SameContent now user m event db db' dirty kept h =
    elim (Bool-cases (is_ask (policy_of user m db))) [
      | inl asks ↦
          let same : create_conflict now user m (title_or event.summary "Deleted event") db ≡ db' =
            cc (rw (apply_deletion, dirty, asks) at h) in
          rw (← same) (conflict-SameContent now user m (title_or event.summary "Deleted event") db)
      | inr silent ↦
          let keeps : keeps_local (policy_of user m db) event (local_updated_at m db) ≡ true =
            rw silent at kept in
          let same : delete_mapping m.id db ≡ db' =
            cc (rw (apply_deletion, dirty, silent, keeps) at h) in
          rw (← same) (delete-SameContent m.id db)
    ]

module _ (g : Codec) (now user calendar : ℕ) (m : Mapping) (event : GoogleEvent) where
  change-SameContent :
      (e : NormalizedEvent) (db db' : Db)
      → m.local_dirty ≡ true
      → (is_ask (policy_of user m db)
          || keeps_local (policy_of user m db) event (local_updated_at m db))
        ≡ true
      → apply_change g now user calendar m event e db ≡ success db'
      → SameContent db db'
  unfolding apply_change policy_of keeps_local local_updated_at accept_change
  change-SameContent e db db' dirty kept h =
      elim (Bool-cases (same_etag m.external_etag event.etag)) [
        | inl known ↦
            let same : db ≡ db' = cc (rw (apply_change, known) at h) in
            rw (← same) (record { events = refl; tasks = refl })
        | inr changed ↦ elim (Bool-cases (is_ask (policy_of user m db))) [
          | inl asks ↦
              let same : create_conflict now user m e.title db ≡ db' =
                cc (rw (apply_change, changed, dirty, asks) at h) in
              rw (← same) (conflict-SameContent now user m e.title db)
          | inr silent ↦
              let keeps : keeps_local (policy_of user m db) event (local_updated_at m db) ≡ true =
                rw silent at kept in
              let same : set_mapping m.id clear_resolution db ≡ db' =
                cc (rw (apply_change, changed, dirty, silent, keeps) at h) in
              rw (← same) (record { events = refl; tasks = refl })
        ]
      ]

module _ (g : Codec) (now user : ℕ) (calendar : SyncCalendar) (m : Mapping) (event : GoogleEvent)
    (db db' : Db) where
  dirty-SameContent :
      m.local_dirty ≡ true
      → (is_ask (policy_of user m db)
          || keeps_local (policy_of user m db) event (local_updated_at m db))
        ≡ true
      → m.reversible_tombstone ≡ false
      → apply_mapped g now user calendar m event db ≡ success db'
      → SameContent db db'
  unfolding apply_mapped apply_deletion policy_of create_conflict local_updated_at accept_deletion
      apply_change accept_change
  dirty-SameContent dirty kept held h = elim (Bool-cases (is_cancelled event)) [
    | inl cancelled ↦
        deletion-SameContent now user m event db db' dirty kept
          (rw (apply_mapped, held, cancelled) at h)
    | inr alive ↦
        let (e, _, h1) =
          >>=-eq-success (normalize_event g event) _ (rw (apply_mapped, held, alive) at h) in
        change-SameContent g now user calendar.id m event e db db' dirty kept h1
  ]

  mapped-SameContent :
      Protected user m event db
      → apply_mapped g now user calendar m event db ≡ success db'
      → SameContent db db'
  unfolding apply_mapped
  mapped-SameContent kept h = elim (Bool-cases m.reversible_tombstone) [
    | inl held ↦
        let same : apply_tombstone now user m event db ≡ db' = cc (rw (apply_mapped, held) at h) in
        rw (← same) (tombstone-SameContent now user m event db)
    | inr free ↦ go free kept
  ]
    where
      go : m.reversible_tombstone ≡ false → Protected user m event db → SameContent db db'
      go free (tombstone held) = absurd (cc)
      go free (asked dirty asks) = dirty-SameContent dirty (rw asks refl) free h
      go free (preferred dirty keeps) = dirty-SameContent dirty (rw keeps (ground arith)) free h

  -- An event that Google reports, of which a protected mapping is the one here, changes no event and no
  -- task, where the synchronization of it succeeds.
  pub apply_remote_event-protects :
      (external : Text)
      → event.id ≡ some external
      → find? (is_external user calendar.external_id external) db.mappings ≡ some m
      → Protected user m event db
      → apply_remote_event g now user calendar event db ≡ success db'
      → SameContent db db'
  unfolding apply_remote_event
  apply_remote_event-protects external named found kept h =
      mapped-SameContent kept (rw (apply_remote_event, named, found) at h)
