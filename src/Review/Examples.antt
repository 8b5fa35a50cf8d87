-- ===== src/Review/Examples.antt =====
-- The theorems on the daily plan at two dates with three tasks.
use prosepect.Base.{◌≡◌, refl, none, false, List, [], ◌∷◌}
use prosepect.Base.Int.{pos}
use prosepect.Tasks.{Task}
use prosepect.Tasks.Examples.{plain, water, row}
use prosepect.Store.{next_version}
use prosepect.Store.Tasks.{has_duplicates}
use prosepect.Store.Examples.{value}
use prosepect.Review.{
  Desk, opened, completed, bump, bump_each, clear_focus, insert_focus, focus_rows,
}
use prosepect.Review.Plan.{update_daily_focus, replace_focus, daily_plan}
use prosepect.Review.Complete.{
  DailyReview, CompleteDailyReviewRequest, carry_forward, complete_daily_review,
  lock_review_selection, previous_unfinished_focus_date, focus_tasks_for_date, covers, decide,
  keep_existing, write_plan, with_tasks, review_written,
}
use prosepect.Review.Order.{Planned, update_daily_focus-Planned}
use prosepect.Review.Rewritten.{complete_daily_review-Rewritten}

-- One task was left yesterday, and two are planned today.
abbrev desk : Desk
desk = record {
  next_id = 9;
  users = 7 ∷ [];
  settings = [];
  tasks = row water ∷ row (record water { id = 4 }) ∷ row (record water { id = 5 }) ∷ [];
  focus =
      record { user_id = 7; focus_date = 10; task_id = 1; position = 1 }
      ∷ record { user_id = 7; focus_date = 11; task_id = 4; position = 1 }
      ∷ record { user_id = 7; focus_date = 11; task_id = 5; position = 2 }
      ∷ [];
  reviews =
      record {
        id = 3;
        user_id = 7;
        review_date = 11;
        status = opened;
        started_at = 50;
        completed_at = none;
        version = 1;
      }
      ∷ [];
  revisions = [];
  task_connections = [];
  jobs = [];
}

abbrev request : CompleteDailyReviewRequest
request = record {
  decisions = record { task_id = 1; action = carry_forward; due_at = none } ∷ [];
  expected_version = pos 1;
}

abbrev no_review : DailyReview
no_review = record {
  id = 0;
  review_date = 0;
  status = opened;
  unfinished_tasks = [];
  started_at = 0;
  completed_at = none;
  version = 0;
}

abbrev reviewed : Desk × DailyReview
unfolding complete_daily_review
reviewed = value (complete_daily_review plain.uuid_text 60 7 11 request desk) (desk, no_review)

-- The two tasks of today change places.
complete_daily_review-Rewritten_example :
    Planned 7 11 (5 ∷ 4 ∷ 1 ∷ []) desk reviewed.0 × (reviewed.1.status ≡ completed)
unfolding complete_daily_review lock_review_selection bump bump_each clear_focus insert_focus
    focus_rows replace_focus previous_unfinished_focus_date focus_tasks_for_date covers decide
    keep_existing write_plan with_tasks review_written next_version reviewed
complete_daily_review-Rewritten_example =
    complete_daily_review-Rewritten plain.uuid_text 60 7 11 request desk reviewed.0 reviewed.1 refl
      refl

abbrev chosen : Desk × List Task
unfolding update_daily_focus
chosen = value (update_daily_focus 7 11 (5 ∷ 1 ∷ []) desk) (desk, [])

update_daily_focus-Planned_example :
    (has_duplicates (5 ∷ 1 ∷ []) ≡ false) × Planned 7 11 (5 ∷ 1 ∷ []) desk chosen.0
unfolding update_daily_focus bump bump_each clear_focus insert_focus focus_rows replace_focus
    daily_plan chosen
update_daily_focus-Planned_example =
    update_daily_focus-Planned 7 11 (5 ∷ 1 ∷ []) desk chosen.0 chosen.1 refl
