-- ===== src/Sync/Frame.antt =====
-- What an event that Google reports leaves of the calendars' rows (apps/api/src/sync_service.rs): all
-- of them, on every branch.
use prosepect.Base.{
  ℕ, suc, ◌≡◌, refl, Option, none, some, Bool, true, false, not, ◌&&◌, ◌||◌, if◌then◌else◌, find?,
  Text, arith,
}
use prosepect.Error.{AppResult, ok, err, panicked, ◌>>=◌}
use prosepect.Store.{Db, Mapping, is_event, is_task, next_version, drop_event}
use prosepect.Store.Events.{set_schedule}
use prosepect.Sync.{
  SyncError, refused, SyncResult, success, failure, ◌>>=◌ as ◌>>>=◌, GoogleEvent, NormalizedEvent,
  Codec,
}
use prosepect.Sync.Google.{normalize_event}
use prosepect.Sync.Canonical.{
  lift, passes_checks, insert_canonical_event, update_linked_task, update_canonical_event,
  delete_canonical_event, delete_mapping, set_mapping, create_conflict, update_mapping_baseline,
  record_activity,
}
use prosepect.Sync.Apply.{
  SyncCalendar, is_ask, is_cancelled, same_etag, is_external, title_or, policy_of, local_updated_at,
  keeps_local, clear_resolution, apply_tombstone, apply_deletion, accept_deletion, apply_change,
  accept_change, import_event, apply_mapped, apply_unmapped, apply_remote_event,
}

-- The same rows of `calendars`.
abbrev pub SameCalendars : Db → Db → Type 0
SameCalendars db db' = db'.calendars ≡ db.calendars

-- What a result has, if it is a success.
unfoldable pub OnSuccess : SyncResult Db → (Db → Type 0) → Type 0
OnSuccess (failure e) P = Unit
OnSuccess (success db) P = P db

on-fail : (e : SyncError) (P : Db → Type 0) → OnSuccess (failure e) P
unfolding OnSuccess
on-fail e P = tt

on-done : (db : Db) (P : Db → Type 0) → P db → OnSuccess (success db) P
unfolding OnSuccess
on-done db P h = h

on-bind :
    {A : Type 0} (first : SyncResult A) (rest : A → SyncResult Db) (P : Db → Type 0)
    → ((a : A) → first ≡ success a → OnSuccess (rest a) P)
    → OnSuccess (first >>>= rest) P
unfolding OnSuccess
on-bind (failure e) rest P h = tt
on-bind (success a) rest P h = h a refl

-- A last step that cannot fail.
on-map :
    (first : SyncResult Db) (f : Db → Db) (P : Db → Type 0)
    → OnSuccess first P
    → ((db : Db) → P db → P (f db))
    → OnSuccess (first >>>= λ db. success (f db)) P
unfolding OnSuccess
on-map (failure e) f P h keep = tt
on-map (success db) f P h keep = keep db h

on-if :
    (b : Bool) (x y : SyncResult Db) (P : Db → Type 0)
    → OnSuccess x P
    → OnSuccess y P
    → OnSuccess (if b then x else y) P
on-if true x y P hx hy = hx
on-if false x y P hx hy = hy

on-option :
    {A : Type 0} (o : Option A) (x : SyncResult Db) (f : A → SyncResult Db) (P : Db → Type 0)
    → OnSuccess x P
    → ((a : A) → OnSuccess (f a) P)
    → OnSuccess (elim o [ none ↦ x | some a ↦ f a ]) P
on-option none x f P hx hf = hx
on-option (some a) x f P hx hf = hf a

on-lift-option :
    {A : Type 0} (o : Option A) (x : AppResult Db) (f : A → AppResult Db) (P : Db → Type 0)
    → OnSuccess (lift x) P
    → ((a : A) → OnSuccess (lift (f a)) P)
    → OnSuccess (lift (elim o [ none ↦ x | some a ↦ f a ])) P
on-lift-option none x f P hx hf = hx
on-lift-option (some a) x f P hx hf = hf a

on-lift-bind :
    {A : Type 0} (first : AppResult A) (rest : A → AppResult Db) (P : Db → Type 0)
    → ((a : A) → OnSuccess (lift (rest a)) P)
    → OnSuccess (lift (first >>= rest)) P
unfolding OnSuccess
on-lift-bind (ok a) rest P h = h a
on-lift-bind (err e) rest P h = tt
on-lift-bind panicked rest P h = tt

conflict-SameCalendars :
    (now user : ℕ) (m : Mapping) (title : Text) (db : Db)
    → SameCalendars db (create_conflict now user m title db)
unfolding create_conflict
conflict-SameCalendars now user m title db = refl

linked_task-SameCalendars :
    (g : Codec) (now user : ℕ) (task : Option ℕ) (e : NormalizedEvent) (db : Db)
    → OnSuccess (update_linked_task g now user task e db) (SameCalendars db)
unfolding update_linked_task
linked_task-SameCalendars g now user none e db = on-done db (SameCalendars db) refl
linked_task-SameCalendars g now user (some task) e db =
    on-option (find? (is_task user task) db.tasks) _ _ (SameCalendars db)
      (on-done _ (SameCalendars db) refl)
      (λ t.
        on-bind (lift (next_version t.task.version)) _ (SameCalendars db)
          (λ v _. on-done _ (SameCalendars db) refl))

update-SameCalendars :
    (g : Codec) (now user id calendar : ℕ) (e : NormalizedEvent) (db : Db)
    → OnSuccess (update_canonical_event g now user id calendar e db) (SameCalendars db)
unfolding update_canonical_event
update-SameCalendars g now user id calendar e db =
    on-option (find? (is_event user id) db.events) _ _ (SameCalendars db)
      (on-done _ (SameCalendars db) refl)
      (λ row.
        on-if (not (passes_checks e)) _ _ (SameCalendars db) (on-fail refused (SameCalendars db)) (
          on-bind (lift (next_version row.event.version)) _ (SameCalendars db)
            (λ v _. linked_task-SameCalendars g now user row.event.linked_task_id e _)))

insert-SameCalendars :
    (id now user calendar : ℕ) (e : NormalizedEvent) (db : Db)
    → OnSuccess (insert_canonical_event id now user calendar e db) (SameCalendars db)
unfolding insert_canonical_event
insert-SameCalendars id now user calendar e db =
    on-if (passes_checks e) _ _ (SameCalendars db) (on-done _ (SameCalendars db) refl)
      (on-fail refused (SameCalendars db))

schedule-SameCalendars :
    (now user : ℕ) (task starts_at ends_at : Option ℕ) (db : Db)
    → OnSuccess (lift (set_schedule now user task starts_at ends_at db)) (SameCalendars db)
unfolding set_schedule
schedule-SameCalendars now user none starts_at ends_at db = on-done db (SameCalendars db) refl
schedule-SameCalendars now user (some task) starts_at ends_at db =
    on-lift-option (find? (is_task user task) db.tasks) _ _ (SameCalendars db)
      (on-done _ (SameCalendars db) refl)
      (λ row.
        on-lift-bind (next_version row.task.version) _ (SameCalendars db)
          (λ v. on-done _ (SameCalendars db) refl))

delete-SameCalendars :
    (now user id : ℕ) (db : Db)
    → OnSuccess (delete_canonical_event now user id db) (SameCalendars db)
unfolding delete_canonical_event drop_event
delete-SameCalendars now user id db =
    on-option (find? (is_event user id) db.events) _ _ (SameCalendars db)
      (on-done _ (SameCalendars db) refl)
      (λ row.
        schedule-SameCalendars now user row.event.linked_task_id none none (drop_event user id db))

tombstone-SameCalendars :
    (now user : ℕ) (m : Mapping) (event : GoogleEvent) (db : Db)
    → SameCalendars db (apply_tombstone now user m event db)
unfolding apply_tombstone delete_mapping create_conflict
tombstone-SameCalendars now user m event db = ground arith

deletion-SameCalendars :
    (now user : ℕ) (m : Mapping) (event : GoogleEvent) (db : Db)
    → OnSuccess (apply_deletion now user m event db) (SameCalendars db)
unfolding apply_deletion accept_deletion delete_mapping create_conflict record_activity
deletion-SameCalendars now user m event db =
    on-if (m.local_dirty && is_ask (policy_of user m db)) _ _ (SameCalendars db)
      (on-done (create_conflict now user m (title_or event.summary "Deleted event") db)
        (SameCalendars db) refl)
      (on-if (m.local_dirty && keeps_local (policy_of user m db) event (local_updated_at m db)) _ _
        (SameCalendars db) (on-done (delete_mapping m.id db) (SameCalendars db) refl)
        (on-map _ _ (SameCalendars db)
          (on-option m.canonical_event_id _ _ (SameCalendars db)
            (on-done db (SameCalendars db) refl) (λ id. delete-SameCalendars now user id db))
          (λ _ same. same)))

module _ (g : Codec) (now user : ℕ) where
  accept-SameCalendars :
      (calendar : ℕ) (m : Mapping) (event : GoogleEvent) (e : NormalizedEvent) (db : Db)
      → OnSuccess (accept_change g now user calendar m event e db) (SameCalendars db)
  unfolding accept_change record_activity update_mapping_baseline
  accept-SameCalendars calendar m event e db =
      on-map _ _ (SameCalendars db)
        (on-option m.canonical_event_id _ _ (SameCalendars db)
          (on-map _ _ (SameCalendars db)
            (insert-SameCalendars db.next_id now user calendar e
              (record db { next_id = suc db.next_id }))
            (λ _ same. same))
          (λ id. update-SameCalendars g now user id calendar e db))
        (λ _ same. same)

  change-SameCalendars :
      (calendar : ℕ) (m : Mapping) (event : GoogleEvent) (e : NormalizedEvent) (db : Db)
      → OnSuccess (apply_change g now user calendar m event e db) (SameCalendars db)
  unfolding apply_change
  change-SameCalendars calendar m event e db =
      on-if (same_etag m.external_etag event.etag) _ _ (SameCalendars db)
        (on-done db (SameCalendars db) refl)
        (on-if ((m.local_dirty || m.local_deleted) && is_ask (policy_of user m db)) _ _
          (SameCalendars db)
          (on-done (create_conflict now user m e.title db) (SameCalendars db)
            (conflict-SameCalendars now user m e.title db))
          (on-if
            ((m.local_dirty || m.local_deleted)
              && keeps_local (policy_of user m db) event (local_updated_at m db))
            _ _ (SameCalendars db)
            (on-done (set_mapping m.id clear_resolution db) (SameCalendars db) refl)
            (accept-SameCalendars calendar m event e db)))

  import-SameCalendars :
      (calendar : SyncCalendar) (external : Text) (event : GoogleEvent) (e : NormalizedEvent)
      (db : Db)
      → OnSuccess (import_event g now user calendar external event e db) (SameCalendars db)
  unfolding import_event record_activity
  import-SameCalendars calendar external event e db =
      on-map _ _ (SameCalendars db)
        (insert-SameCalendars db.next_id now user calendar.id e
          (record db { next_id = suc db.next_id }))
        (λ _ same. same)

  pub apply-SameCalendars :
      (calendar : SyncCalendar) (event : GoogleEvent) (db : Db)
      → OnSuccess (apply_remote_event g now user calendar event db) (SameCalendars db)
  unfolding apply_remote_event apply_mapped apply_unmapped
  apply-SameCalendars calendar event db =
      on-option event.id _ _ (SameCalendars db) (on-done _ (SameCalendars db) refl) λ external.
        on-option (find? (is_external user calendar.external_id external) db.mappings) _ _
          (SameCalendars db)
          (on-if (is_cancelled event) _ _ (SameCalendars db) (on-done db (SameCalendars db) refl) (
            on-bind (normalize_event g event) _ (SameCalendars db)
              λ e _. import-SameCalendars calendar external event e db))
          (λ m.
            on-if m.reversible_tombstone _ _ (SameCalendars db)
              (on-done (apply_tombstone now user m event db) (SameCalendars db)
                (tombstone-SameCalendars now user m event db))
              (on-if (is_cancelled event) _ _ (SameCalendars db)
                (deletion-SameCalendars now user m event db)
                (on-bind (normalize_event g event) _ (SameCalendars db)
                  λ e _. change-SameCalendars calendar.id m event e db)))
