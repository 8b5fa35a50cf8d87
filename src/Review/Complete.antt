-- ===== src/Review/Complete.antt =====
-- `start_daily_review` and `complete_daily_review` of apps/api/src/daily_review_store.rs.
use prosepect.Base.{
  ℕ, suc, Text, Option, none, some, Bool, true, false, not, ◌&&◌, List, [], ◌∷◌, ◌++◌, ◌==◌, ltb,
  if◌then◌else◌, any, find?, retain, length, update_where, max,
}
use prosepect.Base.Int.{ℤ, is_version}
use prosepect.Error.{
  AppResult, ok, AppError, validation, conflict, changed_since, not_found, literal, fail_if, ok_or,
  ◌>>=◌, ◌>>◌,
}
use prosepect.Tasks.{Task, RecurringTaskState}
use prosepect.Store.{is_task, next_version}
use prosepect.Store.Changes.{is_enabled_for, count_change, is_shown_change, insert_change_job}
use prosepect.Store.Tasks.{contains, has_duplicates}
use prosepect.Review.{
  Desk, FocusTask, DailyReviewRow, DailyReviewStatus, opened, completed, GuardRevision,
  review_selection, focus_on, is_revision, bump, focus_rows, join, tasks_of, is_unfinished,
}
use prosepect.Review.Settings.{user_settings}
use prosepect.Review.Plan.{replace_focus}

pub record DailyReview : Type 0 where
  pub id : ℕ
  pub review_date : ℕ
  pub status : DailyReviewStatus
  pub unfinished_tasks : List Task
  pub started_at : ℕ
  pub completed_at : Option ℕ
  pub version : ℕ

-- `DailyReviewRow::with_tasks`
unfoldable pub with_tasks : DailyReviewRow → List Task → DailyReview
with_tasks r tasks = record {
  id = r.id;
  review_date = r.review_date;
  status = r.status;
  unfinished_tasks = tasks;
  started_at = r.started_at;
  completed_at = r.completed_at;
  version = r.version;
}

-- The row that a writer of reviews locks exists from then on.
unfoldable pub lock_review_selection : ℕ → Desk → Desk
lock_review_selection user d =
    if any (is_revision user review_selection) d.revisions then d else record d {
      revisions =
          d.revisions ++ record { user_id = user; scope = review_selection; revision = 0 } ∷ [];
    }

abbrev pub later : ℕ → Option ℕ → Option ℕ
later date none = some date
later date (some other) = some (max date other)

-- `MAX`
abbrev pub latest_date : List FocusTask → Option ℕ
latest_date [] = none
latest_date (f ∷ fs) = later f.focus_date (latest_date fs)

abbrev pub is_left : ℕ → ℕ → List RecurringTaskState → FocusTask → Bool
is_left user before tasks f =
    f.user_id == user
    && ltb f.focus_date before
    && any (λ t. is_task user f.task_id t && is_unfinished t) tasks

unfoldable pub previous_unfinished_focus_date : ℕ → ℕ → Desk → Option ℕ
previous_unfinished_focus_date user date d =
    latest_date (retain (is_left user date d.tasks) d.focus)

unfoldable pub focus_tasks_for_date : ℕ → ℕ → Desk → List Task
unfolding focus_rows
focus_tasks_for_date user date d =
    tasks_of (retain is_unfinished (join user d.tasks (focus_rows user date d)))

abbrev pub is_review : ℕ → ℕ → DailyReviewRow → Bool
is_review user date r = r.user_id == user && r.review_date == date

-- The trigger on `daily_reviews`.
unfoldable pub review_written : ℕ → ℕ → List GuardRevision → List GuardRevision
unfolding bump
review_written user date rs = bump user (focus_on date) (bump user review_selection rs)

abbrev pub new_review : ℕ → ℕ → ℕ → ℕ → DailyReviewRow
new_review id now user date = record {
  id = id;
  user_id = user;
  review_date = date;
  status = opened;
  started_at = now;
  completed_at = none;
  version = 1;
}

-- `INSERT ... ON CONFLICT DO NOTHING`, and the SELECT after it.
unfoldable pub ensure_review : ℕ → ℕ → ℕ → Desk → Desk × DailyReviewRow
unfolding review_written
ensure_review now user date d = elim (find? (is_review user date) d.reviews) [
  | some r ↦ (d, r)
  | none ↦ (
    record d {
      next_id = suc d.next_id;
      reviews = d.reviews ++ new_review d.next_id now user date ∷ [];
      revisions = review_written user date d.revisions;
    },
    new_review d.next_id now user date,
  )
]

unfoldable pub start_daily_review : ℕ → ℕ → ℕ → Bool → Desk → Desk × Option DailyReview
unfolding lock_review_selection ensure_review user_settings
start_daily_review now user date manual d =
    let (d1, settings) = user_settings now user d in
    if not manual && not settings.automatic_daily_review
    then (d1, none)
    else let d2 = lock_review_selection user d1 in
      elim (previous_unfinished_focus_date user date d2) [
        | none ↦ (d2, none)
        | some previous ↦
            let (d3, r) = ensure_review now user date d2 in
            (d3, some (with_tasks r (focus_tasks_for_date user previous d3)))
      ]

pub data ReviewDecisionAction : Type 0 where
  carry_forward reschedule remove : ReviewDecisionAction

pub record ReviewTaskDecision : Type 0 where
  pub task_id : ℕ
  pub action : ReviewDecisionAction
  pub due_at : Option ℕ

pub record CompleteDailyReviewRequest : Type 0 where
  pub decisions : List ReviewTaskDecision
  pub expected_version : ℤ

abbrev pub decided : List ReviewTaskDecision → List ℕ
decided [] = []
decided (d ∷ ds) = d.task_id ∷ decided ds

abbrev pub ids_of : List Task → List ℕ
ids_of [] = []
ids_of (t ∷ ts) = t.id ∷ ids_of ts

abbrev pub all_in : List ℕ → List ℕ → Bool
all_in [] ys = true
all_in (x ∷ xs) ys = contains x ys && all_in xs ys

abbrev pub deadline_error : AppError
deadline_error = validation (literal "rescheduled review tasks require a new deadline")

abbrev pub set_due : ℕ → ℕ → ℕ → RecurringTaskState → RecurringTaskState
set_due now due version t = record t {
  task = record t.task { due_at = some due; updated_at = now; version = version };
}

-- The trigger on the tasks, as in Store, over these tables.
abbrev pub enqueue_desk_change : (ℕ → Text) → ℕ → ℕ → Bool → Desk → Desk
enqueue_desk_change uuid_text now user is_change d =
    let fires = is_change && any (is_enabled_for user) d.task_connections in
    record d {
      next_id = if fires then suc (suc d.next_id) else d.next_id;
      task_connections =
          if fires
          then update_where (is_enabled_for user) count_change d.task_connections
          else d.task_connections;
      jobs = if fires then insert_change_job uuid_text now d.next_id user d.jobs else d.jobs;
    }

-- `UPDATE tasks SET due_at = ...`
unfoldable pub reschedule_task : (ℕ → Text) → ℕ → ℕ → ℕ → ℕ → Desk → AppResult Desk
reschedule_task uuid_text now user id due d = elim (find? (is_task user id) d.tasks) [
  | none ↦ ok d
  | some t ↦ next_version t.task.version >>= λ version. ok (
      enqueue_desk_change uuid_text now user
        (is_shown_change t.task (set_due now due version t).task)
        (record d { tasks = update_where (is_task user id) (set_due now due version) d.tasks }))
]

-- The loop over the decisions: the tasks that are carried forward.
unfoldable pub decide :
    (ℕ → Text) → ℕ → ℕ → List ReviewTaskDecision → Desk → AppResult (Desk × List ℕ)
unfolding reschedule_task
decide uuid_text now user [] d = ok (d, [])
decide uuid_text now user (x ∷ xs) d = elim x.action [
  | carry_forward ↦ decide uuid_text now user xs d >>= λ (d1, ids). ok (d1, x.task_id ∷ ids)
  | reschedule ↦ ok_or x.due_at deadline_error >>= λ due.
      reschedule_task uuid_text now user x.task_id due d >>= decide uuid_text now user xs
  | remove ↦ decide uuid_text now user xs d
]

abbrev pub focus_ids : List FocusTask → List ℕ
focus_ids [] = []
focus_ids (f ∷ fs) = f.task_id ∷ focus_ids fs

-- The loop over the tasks of the date that are there already.
unfoldable pub keep_existing : List ℕ → List ℕ → List ℕ
keep_existing [] carry = carry
keep_existing (id ∷ ids) carry = keep_existing ids (if contains id carry then carry else id ∷ carry)

abbrev pub dedup_from : ℕ → List ℕ → List ℕ
dedup_from x [] = x ∷ []
dedup_from x (y ∷ ys) = if x == y then dedup_from x ys else x ∷ dedup_from y ys

-- `Vec::dedup`: consecutive repetitions.
abbrev pub dedup : List ℕ → List ℕ
dedup [] = []
dedup (x ∷ xs) = dedup_from x xs

abbrev pub is_done : DailyReviewStatus → Bool
is_done completed = true
is_done opened = false

abbrev pub done_error : AppError
done_error = conflict (literal "daily review is already completed")

abbrev pub decision_error : AppError
decision_error = validation (literal "a decision is required for every unfinished focus task")

abbrev pub carry_error : AppError
carry_error = validation (literal "carrying these tasks forward would exceed three focus tasks")

abbrev pub close_review : ℕ → ℕ → DailyReviewRow → DailyReviewRow
close_review now version r = record r {
  status = completed;
  completed_at = some now;
  version = version;
}

-- Whether there is one decision for each unfinished task, and no other.
unfoldable pub covers : List ReviewTaskDecision → List Task → Bool
covers decisions tasks =
    not (has_duplicates (decided decisions))
    && all_in (decided decisions) (ids_of tasks)
    && all_in (ids_of tasks) (decided decisions)

-- The statements after the decisions: the plan of the date, and the review.
unfoldable pub write_plan :
    ℕ → ℕ → ℕ → DailyReviewRow → List Task → List ℕ → Desk → AppResult (Desk × DailyReview)
unfolding replace_focus review_written with_tasks keep_existing focus_rows
write_plan now user date r unfinished carried d = do
  let ids = dedup (keep_existing (focus_ids (focus_rows user date d)) carried)
  fail_if (ltb 3 (length ids)) carry_error
  version ← next_version r.version
  let planned = replace_focus user date ids d
  ok (
    record planned {
      reviews =
          update_where (λ (x : DailyReviewRow). x.id == r.id && x.user_id == user)
            (close_review now version) planned.reviews;
      revisions = review_written user date planned.revisions;
    },
    with_tasks (close_review now version r) unfinished,
  )

unfoldable pub complete_daily_review :
    (ℕ → Text) → ℕ → ℕ → ℕ → CompleteDailyReviewRequest → Desk → AppResult (Desk × DailyReview)
unfolding lock_review_selection bump write_plan
complete_daily_review uuid_text now user date request d = do
  let locked = lock_review_selection user d
  let selected = record locked { revisions = bump user review_selection locked.revisions }
  r ← ok_or (find? (is_review user date) selected.reviews) (not_found "daily review")
  fail_if (is_done r.status) done_error
  fail_if (not (is_version request.expected_version r.version))
      (conflict (changed_since "daily review" request.expected_version r.version))
  previous ←
      ok_or (previous_unfinished_focus_date user date selected)
        (conflict (literal "there are no unfinished focus tasks"))
  let bumped = record selected {
    revisions = bump user (focus_on date) (bump user (focus_on previous) selected.revisions);
  }
  let unfinished = focus_tasks_for_date user previous bumped
  fail_if (not (covers request.decisions unfinished)) decision_error
  (decided, carried) ← decide uuid_text now user request.decisions bumped
  write_plan now user date r unfinished carried decided
