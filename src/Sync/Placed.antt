-- ===== src/Sync/Placed.antt =====
-- The statements of apps/api/src/sync_service.rs by which a Google event becomes one here, and what
-- they leave of it: its content, in the row of an event.
use prosepect.Base.{
  ℕ, suc, ◌≡◌, refl, inl, inr, Option, none, some, Bool-cases, Option-cases, find?, find?-eq-some,
  Has, Has-last, Has-update_where, [], ◌∷◌, ◌++◌, list_eq, nat_eq, update_where, arith,
}
use prosepect.Store.{Db, EventRow, is_event, is_task, next_version}
use prosepect.Store.Changes.{is_shown_change, enqueue_google_tasks_change}
use prosepect.Sync.{success, Codec, NormalizedEvent}
use prosepect.Sync.Canonical.{
  lift, passes_checks, new_canonical, insert_canonical_event, write_canonical, update_linked_task,
  rewrite_task, update_canonical_event,
}
use prosepect.Sync.Push.{local_event}
use prosepect.Sync.Protect.{>>=-eq-success}

-- An event of the user, in the calendar, with the content.
pub record Mirrors (user calendar id : ℕ) (e : NormalizedEvent) (row : EventRow) : Type 0 where
  pub identified : row.event.id ≡ id
  pub owned : row.user_id ≡ user
  pub placed : row.event.calendar_id ≡ calendar
  pub content : local_event row.event ≡ e

linked_task-frame :
    (g : Codec) (now user : ℕ) (task : Option ℕ) (e : NormalizedEvent) (db db' : Db)
    → update_linked_task g now user task e db ≡ success db'
    → (db'.events ≡ db.events) × (db'.mappings ≡ db.mappings)
unfolding update_linked_task
linked_task-frame g now user none e db db' h =
    let same : db ≡ db' = cc h in rw (← same) (refl, refl)
linked_task-frame g now user (some task) e db db' h =
    elim (Option-cases (find? (is_task user task) db.tasks)) [
      | inl missing ↦
          let same : db ≡ db' = cc (rw (update_linked_task, missing) at h) in
          rw (← same) (refl, refl)
      | inr (t, found) ↦
          let (version, _, h1) =
            >>=-eq-success (lift (next_version t.task.version)) _
              (rw (update_linked_task, found) at h) in
          let same : enqueue_google_tasks_change g.uuid_text now user
                (is_shown_change t.task (rewrite_task now e version t).task)
                (record db {
                  tasks = update_where (is_task user task) (rewrite_task now e version) db.tasks;
                })
              ≡ db' =
            cc h1 in
          rw (← same) (refl, refl)
    ]

-- What a statement leaves that puts the content in an event's row.
pub record Placed (user calendar id : ℕ) (e : NormalizedEvent) (db db' : Db) : Type 0 where
  pub mappings : db'.mappings ≡ db.mappings
  pub row : EventRow
  pub stored : Has row db'.events
  pub mirrors : Mirrors user calendar id e row

pub update-Placed :
    (g : Codec) (now user id calendar : ℕ) (e : NormalizedEvent) (db db' : Db) (row : EventRow)
    → find? (is_event user id) db.events ≡ some row
    → update_canonical_event g now user id calendar e db ≡ success db'
    → Placed user calendar id e db db'
unfolding update_canonical_event write_canonical local_event
update-Placed g now user id calendar e db db' row found h = elim (Bool-cases (passes_checks e)) [
  | inl passes ↦
      let (version, _, h1) =
        >>=-eq-success (lift (next_version row.event.version)) _
          (rw (update_canonical_event, found, passes) at h) in
      let (events, mappings) = linked_task-frame g now user row.event.linked_task_id e _ db' h1 in
      let own = find?-eq-some (is_event user id) db.events row found in
      record {
        mappings = mappings;
        row = record row { event = write_canonical now calendar e version row.event };
        stored = rw events (
            Has-update_where (is_event user id)
              (λ x. record x { event = write_canonical now calendar e version x.event }) db.events
              row found);
        mirrors = record {
          identified = ground (arith, own);
          owned = ground (arith, own);
          placed = refl;
          content = refl;
        };
      }
  | inr fails ↦ cc (rw (update_canonical_event, found, fails) at h)
]

pub insert-Placed :
    (now user calendar : ℕ) (e : NormalizedEvent) (db db' : Db)
    → insert_canonical_event db.next_id now user calendar e (record db { next_id = suc db.next_id })
      ≡ success db'
    → Placed user calendar db.next_id e db db'
unfolding insert_canonical_event new_canonical local_event
insert-Placed now user calendar e db db' h = elim (Bool-cases (passes_checks e)) [
  | inl passes ↦
      let row : EventRow = record {
        event = new_canonical db.next_id now calendar e;
        user_id = user;
      } in
      let same : record db { next_id = suc db.next_id; events = db.events ++ row ∷ [] } ≡ db' =
        cc (rw (insert_canonical_event, passes) at h) in
      record {
        mappings = rw (← same) refl;
        row = row;
        stored = rw (← same) (Has-last db.events row);
        mirrors = record { identified = refl; owned = refl; placed = refl; content = refl };
      }
  | inr fails ↦ cc (rw (insert_canonical_event, fails) at h)
]
