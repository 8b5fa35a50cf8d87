-- ===== src/Reconcile.antt =====
-- apps/api/src/google_tasks.rs: the fields that a task shares with Google Tasks, and their
-- three-way reconciliation.
pub mod Merge
pub mod Sides
mod Examples
use prosepect.Base.{
  ℕ, Option, none, some, ◌≡◌, Bool, true, false, not, ◌&&◌, ◌||◌, if◌then◌else◌, PartialEq, leb,
  Text, trim, is_empty, length, nat_eq, bool_eq, option_eq, list_eq,
}

-- A `NaiveDate` is the number of its day.
pub record TaskFields : Type 0 where
  pub title : Text
  pub date : Option ℕ
  pub completed : Bool

pub data ConflictField : Type 0 where
  title date completion : ConflictField

pub data TaskConflictChoice : Type 0 where
  google app : TaskConflictChoice

unfoldable pub merge {ℓ} : {T : Type ℓ} ⦃e : PartialEq T⦄ → T → T → T → Option T
merge ⦃e⦄ baseline local remote =
    if e.eq local remote || e.eq remote baseline
    then some local
    else if e.eq local baseline
    then some remote
    else none

-- `Result<TaskFields, ConflictField>`
pub data Reconciled : Type 0 where
  merged : TaskFields → Reconciled
  conflicting : ConflictField → Reconciled

abbrev or_conflict {ℓ} : {T : Type ℓ} → Option T → ConflictField → (T → Reconciled) → Reconciled
or_conflict (some t) field continue = continue t
or_conflict none field continue = conflicting field

unfoldable pub reconcile : TaskFields → TaskFields → TaskFields → Reconciled
reconcile baseline local remote =
    or_conflict (merge baseline.title local.title remote.title) ConflictField.title λ t.
      or_conflict (merge baseline.date local.date remote.date) ConflictField.date λ d.
        or_conflict (merge baseline.completed local.completed remote.completed) completion
          λ c. merged (record { title = t; date = d; completed = c })

abbrev pub unwrap_or {ℓ} : {T : Type ℓ} → Option T → T → T
unwrap_or (some t) d = t
unwrap_or none d = d

abbrev pub preferred : TaskConflictChoice → TaskFields → TaskFields → TaskFields
preferred google local remote = remote
preferred app local remote = local

unfoldable pub resolve_conflicting_fields :
    TaskFields → TaskFields → TaskFields → TaskConflictChoice → TaskFields
resolve_conflicting_fields baseline local remote choice =
    let p = preferred choice local remote in
    record {
      title = unwrap_or (merge baseline.title local.title remote.title) p.title;
      date = unwrap_or (merge baseline.date local.date remote.date) p.date;
      completed = unwrap_or (merge baseline.completed local.completed remote.completed) p.completed;
    }

-- `TaskFields::valid`
unfoldable pub valid : TaskFields → Bool
unfolding trim
valid fields = not (is_empty (trim fields.title)) && leb (length (trim fields.title)) 240
