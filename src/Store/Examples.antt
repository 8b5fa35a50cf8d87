-- ===== src/Store/Examples.antt =====
-- The theorems on the tables at one small workspace: a daily task with a time block in Google's
-- calendar, which is edited, completed, reordered and deleted.
use prosepect.Base.{
  retain, ℕ, arith, ◌+◌, ◌≡◌, ◌↔◌, refl, none, some, true, false, [], ◌∷◌, map, All, codes, find?,
  trim, text_eq,
}
use prosepect.Base.Int.{pos}
use prosepect.Error.{AppResult, ok, err, panicked}
use prosepect.Tasks.{
  Task, RecurringTaskState, CreateTaskRequest, UpdateTaskRequest, never, todo, completed, daily,
  medium,
}
use prosepect.Store.{Db, Calendar, google, CalendarEvent, once, is_task, next_version, drop_event}
use prosepect.Jobs.{new_job}
use prosepect.Tasks.Examples.{plain, water, row}
use prosepect.Tasks.Validate.{validate_task_fields, validate_schedule}
use prosepect.Tasks.Labels.{validate_labels, normalize_labels}
use prosepect.Tasks.Recurrence.{prepare, successor_source, next_recurrence_date}
use prosepect.Store.Changes.{insert_change_job, is_shown_change}
use prosepect.Store.Ancestors.{InChain, in_parent_chain-InChain}
use prosepect.Store.Pages.{tasks_listed, normalized_limit}
use prosepect.Store.Pages.Walk.{walk, IsDescending, walk-tasks_listed}
use prosepect.Store.Relations.{
  in_parent_chain, validate_task_relationships, check_parent, validate_task_update_relationships,
  has_subtasks,
}
use prosepect.Store.Blocks.{
  sync_task_calendar_event, schedule_block, task_calendar_event, preferred_time_block_calendar,
  lowest, is_preferred, can_write, leave_calendar, upsert_block, move_block, new_block,
  mark_event_for_sync, is_google_calendar, mark_mapping, insert_job, event_key,
  remove_task_calendar_event,
}
use prosepect.Store.Series.{
  remove_next_occurrence_for_reopen, load, ensure_labels, insert_labels, create_next_recurring_task,
  next_task_position, shifted, next_row, insert_task, drop_task,
}
use prosepect.Store.Tasks.{
  create_task, new_row, update_task_scoped, update_row, edited, after_update, delete_task,
  reorder_tasks,
}
use prosepect.Store.Versions.{update_task_scoped-version}
use prosepect.Store.Order.{Ranked, reorder_tasks-Ranked}
use prosepect.Store.Successor.{Follows, create_next-Follows, reopen-create_next}
use prosepect.Store.Stored.{IsStored}
use prosepect.Store.Invariant.{update_task_scoped-IsStored, create_task-IsStored}
use prosepect.Store.Reach.{here, next, update, Steps-IsStored}
use prosepect.Store.Deletion.{Deleted, delete_task-Deleted, flags, is_calendar_job, reopen-flags}

abbrev primary : Calendar
primary = record {
  id = 2;
  user_id = 7;
  name = codes "Google";
  color = codes "#64748b";
  source = google;
  external_id = some (codes "me");
  selected = true;
  is_default = false;
  provider_primary = true;
  access_role = "owner";
  sync_token = none;
  last_synced_at = none;
  last_sync_error = none;
  created_at = 0;
  updated_at = 0;
  version = 1;
}

abbrev pub block : CalendarEvent
block = record {
  id = 3;
  calendar_id = 2;
  linked_task_id = some 1;
  title = codes "Water";
  description = [];
  starts_at = 10;
  ends_at = 20;
  all_day = false;
  timezone = codes "UTC";
  location = [];
  attendees = [];
  recurrence = once;
  recurrence_until = none;
  created_at = 0;
  updated_at = 0;
  version = 1;
}

abbrev pub home : Db
home = record {
  next_id = 9;
  users = (7, codes "UTC") ∷ [];
  projects = [];
  tasks = row water ∷ row (record water { id = 4 }) ∷ [];
  labels = [];
  calendars = primary ∷ [];
  events = record { event = block; user_id = 7 } ∷ [];
  mappings =
      record {
        id = 5;
        user_id = 7;
        calendar_id = 2;
        canonical_event_id = some 3;
        external_calendar_id = codes "me";
        external_event_id = codes "e3";
        external_etag = some (codes "1");
        base_fingerprint = none;
        local_dirty = false;
        local_deleted = false;
        unresolved = false;
        pending_resolution = none;
        last_synced_at = none;
        deletion_hold_until = none;
        reversible_tombstone = false;
        delete_resolution_pending = false;
      }
      ∷ [];
  jobs = [];
  conflicts = [];
  activity = [];
  policies = [];
  task_connections = [];
}

abbrev finish : UpdateTaskRequest
finish = record {
  project_id = none;
  parent_task_id = none;
  title = codes "Water";
  description = [];
  due_at = some 50;
  scheduled_start = some 10;
  scheduled_end = some 20;
  status = completed;
  priority = medium;
  recurrence = daily;
  labels = [];
  remind_at = none;
  expected_version = pos 1;
}

abbrev pub value {ℓ} : {A : Type ℓ} → AppResult A → A → A
value (ok a) other = a
value (err e) other = other
value panicked other = other

abbrev finished : Db × Task
finished = value (update_task_scoped plain 30 7 1 finish none home) (home, water)

finishes : update_task_scoped plain 30 7 1 finish none home ≡ ok finished
unfolding update_task_scoped validate_task_fields validate_schedule trim validate_labels
    normalize_labels validate_task_relationships check_parent validate_task_update_relationships
    has_subtasks load prepare update_row next_version edited after_update ensure_labels
    insert_labels sync_task_calendar_event schedule_block task_calendar_event
    preferred_time_block_calendar lowest is_preferred can_write leave_calendar upsert_block
    move_block new_block mark_event_for_sync is_google_calendar mark_mapping insert_job event_key
    new_job create_next_recurring_task successor_source next_recurrence_date next_task_position
    shifted next_row insert_task text_eq is_shown_change
finishes = refl

abbrev deleted : Db
deleted = value (delete_task plain 30 7 1 (pos 1) home) home

deletes : delete_task plain 30 7 1 (pos 1) home ≡ ok deleted
unfolding delete_task has_subtasks remove_task_calendar_event task_calendar_event drop_event
    mark_event_for_sync is_google_calendar mark_mapping insert_job event_key new_job drop_task
    text_eq
deletes = refl

abbrev reordered : Db
reordered = value (reorder_tasks 7 (4 ∷ 1 ∷ []) home) home

reorders : reorder_tasks 7 (4 ∷ 1 ∷ []) home ≡ ok reordered
unfolding reorder_tasks
reorders = refl

update_task_scoped-version_example :
    (stored : RecurringTaskState) × (find? (is_task 7 1) home.tasks ≡ some stored)
    × (finish.expected_version ≡ pos stored.task.version)
    × (finished.1.version ≡ stored.task.version + 1)
    × (finished.1.id ≡ 1)
update_task_scoped-version_example =
    update_task_scoped-version plain 30 7 1 finish none home finished.0 finished.1 finishes

delete_task-Deleted_example : Deleted plain 7 1 (pos 1) home deleted
delete_task-Deleted_example = delete_task-Deleted plain 30 7 1 (pos 1) home deleted deletes

reorder_tasks-Ranked_example : All (λ t. t.user_id ≡ 7 → Ranked 0 (4 ∷ 1 ∷ []) t) reordered.tasks
reorder_tasks-Ranked_example = reorder_tasks-Ranked 7 (4 ∷ 1 ∷ []) home reordered reorders

-- The second task as the untouched successor of the first, with the event.
abbrev series : Db
series = record home {
  tasks =
      row (record water { id = 8; status = completed; completed_at = some 5 })
      ∷ record (row water) { recurrence_source_id = some 8 }
      ∷ [];
  task_connections =
      record { user_id = 7; enabled = true; last_synced_at = none; change_revision = 0 } ∷ [];
}

abbrev reopened : Db
reopened = value (remove_next_occurrence_for_reopen plain 30 7 8 series) series

reopens : remove_next_occurrence_for_reopen plain 30 7 8 series ≡ ok reopened
unfolding remove_next_occurrence_for_reopen drop_task insert_change_job new_job
reopens = refl

reopen-flags_example :
    (retain is_calendar_job reopened.jobs ≡ retain is_calendar_job series.jobs)
    × (map flags reopened.mappings ≡ map flags series.mappings)
reopen-flags_example = reopen-flags plain 30 7 8 series reopened reopens

abbrev advanced : Db
advanced = value (create_next_recurring_task plain 30 7 1 home) home

advances : create_next_recurring_task plain 30 7 1 home ≡ ok advanced
unfolding create_next_recurring_task load successor_source ensure_labels insert_labels
    next_recurrence_date next_task_position shifted next_row insert_task sync_task_calendar_event
    schedule_block task_calendar_event preferred_time_block_calendar lowest is_preferred can_write
    leave_calendar upsert_block move_block new_block next_version mark_event_for_sync
    is_google_calendar mark_mapping insert_job event_key new_job text_eq
advances = refl

create_next-Follows_example : Follows plain 7 1 home advanced
create_next-Follows_example = create_next-Follows plain 30 7 1 home advanced advances

reopen-create_next_example :
    (undone : Db) × (remove_next_occurrence_for_reopen plain 40 7 1 advanced ≡ ok undone)
    × (undone.tasks ≡ home.tasks)
reopen-create_next_example =
    reopen-create_next plain 30 7 1 home advanced 40 advances
      (record { apart = refl; unrelated = refl }, (record { apart = refl; unrelated = refl }, tt))

plain-exact : (a b c : ℕ) → plain.checked_add_signed a b ≡ some c → c ≡ a + b
plain-exact a b c h = cc

water-IsStored : (id : ℕ) → IsStored (row (record water { id = id }))
unfolding trim
water-IsStored id = record {
  valid = record {
    titled = refl;
    short_title = omega arith;
    short_description = omega arith;
    deadline = λ r. refl;
    top_level = λ r. refl;
    ordered = omega arith;
  };
  finished = refl;
  versioned = omega arith;
  template = tt;
}

update_task_scoped-IsStored_example : All IsStored finished.0.tasks
update_task_scoped-IsStored_example =
    update_task_scoped-IsStored plain plain-exact 30 7 1 finish none home finished.0 finished.1
      (water-IsStored 1, (water-IsStored 4, tt)) finishes

abbrev buy : CreateTaskRequest
buy = record {
  project_id = none;
  parent_task_id = none;
  title = codes " Soil ";
  description = [];
  due_at = none;
  scheduled_start = some 40;
  scheduled_end = some 45;
  status = todo;
  priority = medium;
  recurrence = never;
  labels = codes "home" ∷ [];
  remind_at = none;
}

abbrev bought : Db × Task
bought = value (create_task plain 30 7 buy home) (home, water)

buys : create_task plain 30 7 buy home ≡ ok bought
unfolding create_task new_row validate_task_fields validate_schedule trim validate_labels
    normalize_labels validate_task_relationships check_parent next_task_position insert_task
    ensure_labels insert_labels sync_task_calendar_event schedule_block task_calendar_event
    preferred_time_block_calendar lowest is_preferred can_write leave_calendar upsert_block
    move_block new_block next_version mark_event_for_sync is_google_calendar mark_mapping insert_job
    event_key new_job text_eq
buys = refl

create_task-IsStored_example : All IsStored bought.0.tasks
create_task-IsStored_example =
    create_task-IsStored plain 30 7 buy home bought.0 bought.1
      (water-IsStored 1, (water-IsStored 4, tt)) buys

Steps-IsStored_example : All IsStored finished.0.tasks
Steps-IsStored_example =
    Steps-IsStored plain plain-exact home finished.0 (water-IsStored 1, (water-IsStored 4, tt))
      (next here (update 30 7 1 finish none finished.1 finishes))

in_parent_chain-InChain_example :
    (in_parent_chain 2 home.tasks 7 4 4 ≡ true) ↔ InChain 7 4 home.tasks 4
in_parent_chain-InChain_example = in_parent_chain-InChain 7 4 home.tasks 4

walk-tasks_listed_example :
    walk 7 none 1 home 2 none ≡ tasks_listed 7 none home × IsDescending (tasks_listed 7 none home)
unfolding tasks_listed normalized_limit
walk-tasks_listed_example =
    walk-tasks_listed 7 none (some (pos 0)) home
      (((λ same. absurd (ground (arith, same))), tt), (tt, tt))
