-- ===== src/Tasks/Validate.antt =====
-- The field checks of apps/api/src/store.rs: validate_task_fields and what its success means.
use prosepect.Base.{
  ℕ, ◌≤◌, ◌<◌, ◌≡◌, ◌↔◌, refl, Option, none, some, Bool, true, false, not, ◌&&◌, ◌||◌, ltb, arith,
  if◌then◌else◌, Text, trim, is_empty, length,
}
use prosepect.Error.{
  AppResult, ok, err, AppError, validation, literal, fail_if, fail_if-eq-ok, ◌>>◌,
}
use prosepect.Tasks.{TaskRecurrence, recurs}

abbrev pub is_some {ℓ} : {A : Type ℓ} → Option A → Bool
is_some none = false
is_some (some a) = true

abbrev schedule_error : AppError
schedule_error = validation (literal "scheduled_end must be after scheduled_start")

unfoldable pub validate_schedule : Option ℕ → Option ℕ → AppResult (Unit {0})
validate_schedule none none = ok tt
validate_schedule (some start) (some end) = if ltb start end then ok tt else err schedule_error
validate_schedule _ _ =
    err (validation (literal "scheduled_start and scheduled_end must be provided together"))

abbrev pub bad_title : Text → Bool
bad_title title = is_empty (trim title) || ltb 240 (length (trim title))

abbrev title_error : AppError
title_error = validation (literal "task title must contain between 1 and 240 characters")

abbrev description_error : AppError
description_error = validation (literal "task description cannot exceed 10000 characters")

abbrev deadline_error : AppError
deadline_error = validation (literal "a recurring task must have a deadline")

abbrev subtask_error : AppError
subtask_error = validation (literal "a subtask cannot recur")

unfoldable pub validate_task_fields :
    Text → Text → Option ℕ → Option ℕ → Option ℕ → TaskRecurrence → Option ℕ → AppResult (Unit {0})
unfolding validate_schedule trim
validate_task_fields title description due_at scheduled_start scheduled_end recurrence
      parent_task_id =
    do
      fail_if (bad_title title) title_error
      fail_if (ltb 10_000 (length description)) description_error
      fail_if (recurs recurrence && not (is_some due_at)) deadline_error
      fail_if (recurs recurrence && is_some parent_task_id) subtask_error
      validate_schedule scheduled_start scheduled_end

-- A schedule is absent or ends after it starts.
abbrev pub IsOrdered : Option ℕ → Option ℕ → Type 0
IsOrdered none none = Unit
IsOrdered (some start) (some end) = start < end
IsOrdered _ _ = ⊥

-- What the fields of a stored task satisfy.
pub record AreValid (title description : Text) (due_at scheduled_start scheduled_end : Option ℕ)
    (recurrence : TaskRecurrence) (parent_task_id : Option ℕ) : Type 0 where
  pub titled : is_empty (trim title) ≡ false
  pub short_title : length (trim title) ≤ 240
  pub short_description : length description ≤ 10_000
  pub deadline : recurs recurrence ≡ true → is_some due_at ≡ true
  pub top_level : recurs recurrence ≡ true → parent_task_id ≡ none
  pub ordered : IsOrdered scheduled_start scheduled_end

schedule-IsOrdered :
    (start end : Option ℕ) → validate_schedule start end ≡ ok tt → IsOrdered start end
unfolding validate_schedule
schedule-IsOrdered none none h = tt
schedule-IsOrdered (some start) (some end) h = ground arith
schedule-IsOrdered none (some end) h = cc
schedule-IsOrdered (some start) none h = cc

IsOrdered-schedule :
    (start end : Option ℕ) → IsOrdered start end → validate_schedule start end ≡ ok tt
unfolding validate_schedule
IsOrdered-schedule none none h = refl
IsOrdered-schedule (some start) (some end) h = ground arith
IsOrdered-schedule none (some end) h = absurd h
IsOrdered-schedule (some start) none h = absurd h

module _ (title description : Text) (due_at scheduled_start scheduled_end : Option ℕ)
    (recurrence : TaskRecurrence) (parent_task_id : Option ℕ) where
  validate_lem :
      validate_task_fields title description due_at scheduled_start scheduled_end recurrence
        parent_task_id
      ≡ (do
        fail_if (bad_title title) title_error
        fail_if (ltb 10_000 (length description)) description_error
        fail_if (recurs recurrence && not (is_some due_at)) deadline_error
        fail_if (recurs recurrence && is_some parent_task_id) subtask_error
        validate_schedule scheduled_start scheduled_end)
  validate_lem = unfold validate_task_fields in refl

  validate-AreValid :
      validate_task_fields title description due_at scheduled_start scheduled_end recurrence
          parent_task_id
        ≡ ok tt
      → AreValid title description due_at scheduled_start scheduled_end recurrence parent_task_id
  validate-AreValid h =
      let (a, h1) = fail_if-eq-ok (bad_title title) title_error _ (rw validate_lem at h) in
      let (b, h2) = fail_if-eq-ok (ltb 10_000 (length description)) description_error _ h1 in
      let (c, h3) = fail_if-eq-ok (recurs recurrence && not (is_some due_at)) deadline_error _ h2 in
      let (d, h4) =
        fail_if-eq-ok (recurs recurrence && is_some parent_task_id) subtask_error _ h3 in
      record {
        titled = ground arith;
        short_title = ground arith;
        short_description = ground arith;
        deadline = λ r. ground arith;
        top_level = λ r. ground arith;
        ordered = schedule-IsOrdered scheduled_start scheduled_end h4;
      }

  AreValid-validate :
      AreValid title description due_at scheduled_start scheduled_end recurrence parent_task_id
      → validate_task_fields title description due_at scheduled_start scheduled_end recurrence
          parent_task_id
        ≡ ok tt
  AreValid-validate v =
      let a : bad_title title ≡ false = ground (arith, v.titled, v.short_title) in
      let b : ltb 10_000 (length description) ≡ false = ground (arith, v.short_description) in
      let c : (recurs recurrence && not (is_some due_at)) ≡ false = ground (arith, v.deadline) in
      let d : (recurs recurrence && is_some parent_task_id) ≡ false = ground (arith, v.top_level) in
      rw (validate_lem, a, b, c, d) (IsOrdered-schedule scheduled_start scheduled_end v.ordered)

  -- The field check succeeds exactly on a title that is not blank and has at most 240 characters
  -- without the blanks around it, a description of at most 10000, a deadline and no parent where the
  -- task recurs, and a schedule that is absent or ends after it starts.
  pub validate_task_fields_iff :
      (validate_task_fields title description due_at scheduled_start scheduled_end recurrence
          parent_task_id
        ≡ ok tt)
      ↔ AreValid title description due_at scheduled_start scheduled_end recurrence parent_task_id
  validate_task_fields_iff = (validate-AreValid, AreValid-validate)
