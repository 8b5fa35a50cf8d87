-- ===== src/Tasks/Examples.antt =====
-- The theorems on the fields, the labels and the series of a task, at a small task.
use prosepect.Base.{◌+◌, ◌*◌, ◌≡◌, ◌↔◌, refl, none, some, [], ◌∷◌, codes, trim, text_eq}
use prosepect.Base.Int.{pos}
use prosepect.Error.{ok}
use prosepect.Tasks.{
  Platform, Task, RecurringTaskState, UpdateTaskRequest, todo, daily, medium, this_occurrence,
}
use prosepect.Tasks.Validate.{AreValid, validate_task_fields, validate_task_fields_iff}
use prosepect.Tasks.Labels.{Labelled, validate_labels, validate_labels-Labelled}
use prosepect.Tasks.Recurrence.{prepare, successor_source, prepare_this_occurrence}

-- Lower case and months of thirty days, enough for an example in lower case.
abbrev pub plain : Platform
plain = record {
  to_lowercase = λ t. t;
  checked_add_signed = λ a b. some (a + b);
  checked_add_months = λ a n. some (a + n * 2_592_000_000_000);
  uuid_text = λ n. n ∷ [];
  decimal = λ n. n ∷ [];
}

abbrev pub water : Task
water = record {
  id = 1;
  project_id = none;
  parent_task_id = none;
  title = codes "Water";
  description = [];
  due_at = some 50;
  scheduled_start = some 10;
  scheduled_end = some 20;
  status = todo;
  priority = medium;
  recurrence = daily;
  labels = [];
  remind_at = none;
  position = 1024;
  completed_at = none;
  created_at = 0;
  updated_at = 0;
  version = 1;
}

abbrev pub row : Task → RecurringTaskState
row t = record {
  task = t;
  recurrence_defaults = none;
  recurrence_project_id = none;
  user_id = 7;
  recurrence_source_id = none;
}

-- The deadline of this occurrence only is moved.
abbrev postpone : UpdateTaskRequest
postpone = record {
  project_id = none;
  parent_task_id = none;
  title = codes "Water";
  description = [];
  due_at = some 90;
  scheduled_start = none;
  scheduled_end = none;
  status = todo;
  priority = medium;
  recurrence = daily;
  labels = [];
  remind_at = none;
  expected_version = pos 1;
}

abbrev excepted : RecurringTaskState
excepted = record (row water) {
  recurrence_defaults = some (record {
    title = codes "Water";
    description = [];
    due_at = 50;
    scheduled_start = some 10;
    scheduled_end = some 20;
    priority = medium;
    recurrence = daily;
    labels = [];
    remind_at = none;
  });
}

prepares : prepare postpone (some this_occurrence) (row water) ≡ ok excepted
unfolding prepare
prepares = refl

prepare_this_occurrence_example :
    let later = successor_source (record excepted { task = record water { due_at = some 90 } }) in
    let before = successor_source (row water) in
    (later.project_id ≡ before.project_id)
    × (later.title ≡ before.title)
    × (later.description ≡ before.description)
    × (later.due_at ≡ before.due_at)
    × (later.scheduled_start ≡ before.scheduled_start)
    × (later.scheduled_end ≡ before.scheduled_end)
    × (later.recurrence ≡ before.recurrence)
    × (later.labels ≡ before.labels)
    × (later.remind_at ≡ before.remind_at)
    × (later.priority ≡ before.priority)
prepare_this_occurrence_example =
    prepare_this_occurrence postpone (row water) excepted (record water { due_at = some 90 })
      prepares

normalizes :
    validate_labels plain (codes " home " ∷ codes "home" ∷ codes " " ∷ []) ≡ ok (codes "home" ∷ [])
unfolding validate_labels trim text_eq
normalizes = refl

validate_labels-Labelled_example :
    Labelled plain (codes " home " ∷ codes "home" ∷ codes " " ∷ []) (codes "home" ∷ [])
validate_labels-Labelled_example =
    validate_labels-Labelled plain (codes " home " ∷ codes "home" ∷ codes " " ∷ [])
      (codes "home" ∷ []) normalizes

validate_task_fields_iff_example :
    (validate_task_fields (codes "Water") [] (some 50) (some 10) (some 20) daily none ≡ ok tt)
    ↔ AreValid (codes "Water") [] (some 50) (some 10) (some 20) daily none
validate_task_fields_iff_example =
    validate_task_fields_iff (codes "Water") [] (some 50) (some 10) (some 20) daily none
