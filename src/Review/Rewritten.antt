-- ===== src/Review/Rewritten.antt =====
-- `complete_daily_review` of apps/api/src/daily_review_store.rs: the plan of the date after it.
use prosepect.Base.{
  Text, ℕ, ◌≡◌, refl, sym, ap, ◌∙◌, Bool, true, false, not, List, [], ◌∷◌, ◌==◌, ltb, Bool-cases,
  Option-cases, inl, inr, any, find?, length, retain, arith,
}
use prosepect.Base.Int.{is_version}
use prosepect.Error.{
  AppResult, ok, ok_or, fail_if-eq-ok, conflict, changed_since, not_found, literal, ◌>>=◌,
  >>=-eq-ok,
}
use prosepect.Tasks.{Task}
use prosepect.Store.{is_task, next_version}
use prosepect.Store.Tasks.{contains, has_duplicates}
use prosepect.Review.{
  Desk, FocusTask, DailyReviewRow, completed, review_selection, focus_on, is_revision, bump,
  focus_rows,
}
use prosepect.Review.Plan.{replace_focus}
use prosepect.Review.Order.{Planned, replace_focus-rows, replace_focus-others}
use prosepect.Review.Complete.{
  DailyReview, ReviewTaskDecision, ReviewDecisionAction, carry_forward, reschedule, remove,
  CompleteDailyReviewRequest, complete_daily_review, lock_review_selection, is_review, is_done,
  done_error, previous_unfinished_focus_date, focus_tasks_for_date, covers, decided, decision_error,
  decide, deadline_error, reschedule_task, keep_existing, dedup, dedup_from, focus_ids, write_plan,
  carry_error, with_tasks,
}

-- The tasks that the decisions carry forward.
abbrev pub if_carried : ReviewDecisionAction → ℕ → List ℕ → List ℕ
if_carried carry_forward id ids = id ∷ ids
if_carried _ id ids = ids

abbrev pub carried_of : List ReviewTaskDecision → List ℕ
carried_of [] = []
carried_of (x ∷ xs) = if_carried x.action x.task_id (carried_of xs)

-- A list in reversed order, before another.
abbrev pub reverse_onto : List ℕ → List ℕ → List ℕ
reverse_onto [] ys = ys
reverse_onto (x ∷ xs) ys = reverse_onto xs (x ∷ ys)

abbrev pub is_new : List ℕ → ℕ → Bool
is_new carry id = not (contains id carry)

new-cons :
    (x : ℕ) (carry ids : List ℕ)
    → contains x ids ≡ false
    → retain (is_new (x ∷ carry)) ids ≡ retain (is_new carry) ids
new-cons x carry [] h = refl
new-cons x carry (i ∷ ids) h =
    let other : (x == i) ≡ false = ground arith in
    rw (other, new-cons x carry ids (ground (arith, h))) refl

pub keep_existing-reverse :
    (ids carry : List ℕ)
    → has_duplicates ids ≡ false
    → keep_existing ids carry ≡ reverse_onto (retain (is_new carry) ids) carry
unfolding keep_existing
keep_existing-reverse [] carry h = refl
keep_existing-reverse (x ∷ ids) carry h = elim (Bool-cases (contains x carry)) [
  | inl there ↦ rw there (keep_existing-reverse ids carry (ground (arith, h)))
  | inr new ↦ rw new (
      keep_existing-reverse ids (x ∷ carry) (ground (arith, h))
      ∙ ap (λ l. reverse_onto l (x ∷ carry)) (new-cons x carry ids (ground (arith, h))))
]

keep_existing-once :
    (ids carry : List ℕ)
    → has_duplicates carry ≡ false
    → has_duplicates (keep_existing ids carry) ≡ false
unfolding keep_existing
keep_existing-once [] carry h = h
keep_existing-once (x ∷ ids) carry h = elim (Bool-cases (contains x carry)) [
  | inl there ↦ rw there (keep_existing-once ids carry h)
  | inr new ↦ rw new (keep_existing-once ids (x ∷ carry) (rw (new, h) refl))
]

dedup_from-once : (x : ℕ) (xs : List ℕ) → has_duplicates (x ∷ xs) ≡ false → dedup_from x xs ≡ x ∷ xs
dedup_from-once x [] h = refl
dedup_from-once x (y ∷ ys) h =
    let other : (x == y) ≡ false = ground (arith, h) in
    rw (other, dedup_from-once y ys (ground (arith, h))) refl

dedup-once : (xs : List ℕ) → has_duplicates xs ≡ false → dedup xs ≡ xs
dedup-once [] h = refl
dedup-once (x ∷ xs) h = dedup_from-once x xs h

if_carried-contains :
    (x : ℕ) (a : ReviewDecisionAction) (id : ℕ) (ids : List ℕ)
    → (id == x) ≡ false
    → contains x ids ≡ false
    → contains x (if_carried a id ids) ≡ false
if_carried-contains x carry_forward id ids other h = rw (other, h) refl
if_carried-contains x reschedule id ids other h = h
if_carried-contains x remove id ids other h = h

carried-contains :
    (x : ℕ) (ds : List ReviewTaskDecision)
    → contains x (decided ds) ≡ false
    → contains x (carried_of ds) ≡ false
carried-contains x [] h = refl
carried-contains x (d ∷ ds) h =
    if_carried-contains x d.action d.task_id (carried_of ds) (ground (arith, h))
      (carried-contains x ds (ground (arith, h)))

if_carried-once :
    (a : ReviewDecisionAction) (id : ℕ) (ids : List ℕ)
    → contains id ids ≡ false
    → has_duplicates ids ≡ false
    → has_duplicates (if_carried a id ids) ≡ false
if_carried-once carry_forward id ids new h = rw (new, h) refl
if_carried-once reschedule id ids new h = h
if_carried-once remove id ids new h = h

carried-once :
    (ds : List ReviewTaskDecision)
    → has_duplicates (decided ds) ≡ false
    → has_duplicates (carried_of ds) ≡ false
carried-once [] h = refl
carried-once (d ∷ ds) h =
    if_carried-once d.action d.task_id (carried_of ds)
      (carried-contains d.task_id ds (ground (arith, h))) (carried-once ds (ground (arith, h)))

-- What the decisions leave of the plans.
abbrev Decided : List ReviewTaskDecision → Desk → Desk → List ℕ → Type 0
Decided ds d d' carried = (d'.focus ≡ d.focus) × (carried ≡ carried_of ds)

reschedule-focus :
    (uuid_text : ℕ → Text) (now user id due : ℕ) (d d' : Desk)
    → reschedule_task uuid_text now user id due d ≡ ok d'
    → d'.focus ≡ d.focus
unfolding reschedule_task
reschedule-focus uuid_text now user id due d d' h =
    elim (Option-cases (find? (is_task user id) d.tasks)) [
      | inl missing ↦
          let same : d ≡ d' = cc (rw (reschedule_task, missing) at h) in rw (← same) refl
      | inr (t, found) ↦
          let (version, _, h1) =
            >>=-eq-ok (next_version t.task.version) _ (rw (reschedule_task, found) at h) in
          ap (λ (r : AppResult Desk). focus_or d r) (sym_ok h1)
    ]
  where
    focus_or : Desk → AppResult Desk → List FocusTask
    focus_or d (ok x) = x.focus
    focus_or d _ = d.focus

    sym_ok : {a b : AppResult Desk} → a ≡ b → b ≡ a
    sym_ok e = sym e

decide-Decided :
    (uuid_text : ℕ → Text) (now user : ℕ) (ds : List ReviewTaskDecision) (d d' : Desk)
    (carried : List ℕ)
    → decide uuid_text now user ds d ≡ ok (d', carried)
    → Decided ds d d' carried
unfolding decide
decide-Decided uuid_text now user [] d d' carried h =
    let same : d ≡ d' = cc h in (rw (← same) refl, cc h)
decide-Decided uuid_text now user (x ∷ ds) d d' carried h =
    step x.action h (λ next own k. decide-Decided uuid_text now user ds next d' own k)
  where
    step :
        (a : ReviewDecisionAction)
        → ◌≡◌ {A = AppResult (Desk × List ℕ)}
            (elim a [
              | carry_forward ↦
                  decide uuid_text now user ds d >>= λ (d1, ids). ok (d1, x.task_id ∷ ids)
              | reschedule ↦ ok_or x.due_at deadline_error >>= λ due.
                  reschedule_task uuid_text now user x.task_id due d
                  >>= decide uuid_text now user ds
              | remove ↦ decide uuid_text now user ds d
            ])
            (ok (d', carried))
        → ((next : Desk) (own : List ℕ)
            → decide uuid_text now user ds next ≡ ok (d', own)
            → Decided ds next d' own)
        → (d'.focus ≡ d.focus) × (carried ≡ if_carried a x.task_id (carried_of ds))
    step carry_forward k rest =
        let (first, began, k1) = >>=-eq-ok (decide uuid_text now user ds d) _ k in
        let made : first.0 ≡ d' = cc k1 in
        let own : (x.task_id ∷ first.1) ≡ carried = cc k1 in
        let r = rest d first.1 (rw (← made) began) in (r.0, rw (← own, r.1) refl)
    step reschedule k rest =
        let (at, _, k1) = >>=-eq-ok (ok_or x.due_at deadline_error) _ k in
        let (d1, moved, k2) = >>=-eq-ok (reschedule_task uuid_text now user x.task_id at d) _ k1 in
        let r = rest d1 carried k2 in
        (r.0 ∙ reschedule-focus uuid_text now user x.task_id at d d1 moved, r.1)
    step remove k rest = let r = rest d carried k in (r.0, r.1)

-- The tasks of the date's plan that are not carried forward, in reversed order, before the others.
abbrev pub rewritten : List ℕ → List ReviewTaskDecision → List ℕ
rewritten old ds = reverse_onto (retain (is_new (carried_of ds)) old) (carried_of ds)

plan-Planned :
    (now user date : ℕ) (r : DailyReviewRow) (unfinished : List Task) (ds : List ReviewTaskDecision)
    (d decided_db d' : Desk) (review : DailyReview)
    → decided_db.focus ≡ d.focus
    → has_duplicates (focus_ids (focus_rows user date d)) ≡ false
    → has_duplicates (carried_of ds) ≡ false
    → write_plan now user date r unfinished (carried_of ds) decided_db ≡ ok (d', review)
    → Planned user date (rewritten (focus_ids (focus_rows user date d)) ds) d d'
      × (review.status ≡ completed)
unfolding write_plan focus_rows with_tasks
plan-Planned now user date r unfinished ds d decided_db d' review same once carried h =
    let old = focus_ids (focus_rows user date d) in
    let kept : focus_ids (focus_rows user date decided_db) ≡ old = rw same refl in
    let ids = dedup (keep_existing (focus_ids (focus_rows user date decided_db)) (carried_of ds)) in
    let written : ids ≡ rewritten old ds = rw kept (
      dedup-once (keep_existing old (carried_of ds))
        (keep_existing-once old (carried_of ds) carried)
      ∙ keep_existing-reverse old (carried_of ds) once) in
    let (few, h1) = fail_if-eq-ok (ltb 3 (length ids)) carry_error _ h in
    let (version, _, h2) = >>=-eq-ok (next_version r.version) _ h1 in
    let planned = replace_focus user date ids decided_db in
    let focus : planned.focus ≡ d'.focus = cc h2 in
    (
      record {
        few = rw (← written) (ground (arith, few));
        rows = rw (← focus, ← written) (replace_focus-rows user date ids decided_db);
        others = λ user' date' apart.
            rw (← focus)
              (replace_focus-others user date user' date' ids decided_db apart ∙ rw same refl);
      },
      cc h2,
    )

lock-focus : (user : ℕ) (d : Desk) → (lock_review_selection user d).focus ≡ d.focus
unfolding lock_review_selection
lock-focus user d = elim (Bool-cases (any (is_revision user review_selection) d.revisions)) [
  | inl there ↦ rw (lock_review_selection, there) refl
  | inr new ↦ rw (lock_review_selection, new) refl
]

covers-once :
    (ds : List ReviewTaskDecision) (tasks : List Task)
    → covers ds tasks ≡ true
    → has_duplicates (decided ds) ≡ false
unfolding covers
covers-once ds tasks h = ground (arith, h)

-- A review that is completed leaves its date a plan of at most three tasks, and the plans of other
-- dates and users as they were. Where the plan had no task twice, it has first the tasks that it had
-- and that are not carried forward, in the reverse of their order, and then those that are carried
-- forward, in the order of the decisions.
pub complete_daily_review-Rewritten :
    (uuid_text : ℕ → Text) (now user date : ℕ) (request : CompleteDailyReviewRequest) (d d' : Desk)
    (review : DailyReview)
    → has_duplicates (focus_ids (focus_rows user date d)) ≡ false
    → complete_daily_review uuid_text now user date request d ≡ ok (d', review)
    → Planned user date (rewritten (focus_ids (focus_rows user date d)) request.decisions) d d'
      × (review.status ≡ completed)
unfolding complete_daily_review
complete_daily_review-Rewritten uuid_text now user date request d d' review once h =
    let locked = lock_review_selection user d in
    let selected : Desk = record locked {
      revisions = bump user review_selection locked.revisions;
    } in
    let (r, _, h1) =
      >>=-eq-ok (ok_or (find? (is_review user date) selected.reviews) (not_found "daily review")) _
        h in
    let (_, h2) = fail_if-eq-ok (is_done r.status) done_error _ h1 in
    let (_, h3) =
      fail_if-eq-ok (not (is_version request.expected_version r.version))
        (conflict (changed_since "daily review" request.expected_version r.version)) _ h2 in
    let (previous, _, h4) =
      >>=-eq-ok
        (ok_or (previous_unfinished_focus_date user date selected)
          (conflict (literal "there are no unfinished focus tasks")))
        _ h3 in
    let bumped : Desk = record selected {
      revisions = bump user (focus_on date) (bump user (focus_on previous) selected.revisions);
    } in
    let unfinished = focus_tasks_for_date user previous bumped in
    let (covered, h5) =
      fail_if-eq-ok (not (covers request.decisions unfinished)) decision_error _ h4 in
    let (done, decisions, h6) =
      >>=-eq-ok (decide uuid_text now user request.decisions bumped) _ h5 in
    let (focus, ids) =
      decide-Decided uuid_text now user request.decisions bumped done.0 done.1 decisions in
    plan-Planned now user date r unfinished request.decisions d done.0 d' review
      (focus ∙ lock-focus user d) once
      (carried-once request.decisions
        (covers-once request.decisions unfinished (ground (arith, covered))))
      (rw ids at h6)
