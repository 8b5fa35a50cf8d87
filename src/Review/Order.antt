-- ===== src/Review/Order.antt =====
-- `update_daily_focus` of apps/api/src/store.rs: the plan that it leaves, and the plans of other dates
-- and users.
use prosepect.Base.{
  ℕ, suc, ◌+◌, ◌≤◌, ◌≡◌, refl, ap, ◌∙◌, Bool, true, false, not, ◌&&◌, List, [], ◌∷◌, ◌++◌, ◌==◌,
  ==_refl, ltb, leb, Bool-cases, inl, inr, any, length, retain, delete_where, arith,
}
use prosepect.Error.{ok, unauthorized, fail_if-eq-ok}
use prosepect.Tasks.{Task}
use prosepect.Store.Tasks.{has_duplicates}
use prosepect.Review.{
  Desk, FocusTask, focus_on, bump, is_focus_on, clear_focus, insert_focus, sort_by_position,
  focus_rows,
}
use prosepect.Review.Plan.{
  update_daily_focus, replace_focus, many_error, repeated_error, choice_error, is_user,
  is_choosable,
}
use prosepect.Review.Complete.{focus_ids}

-- The rows of a plan, from the given index.
abbrev pub rows_of : ℕ → ℕ → ℕ → List ℕ → List FocusTask
rows_of user date index [] = []
rows_of user date index (id ∷ ids) =
    record { user_id = user; focus_date = date; task_id = id; position = index + 1 }
    ∷ rows_of user date (suc index) ids

module _ {A : Type 0} where
  append_assoc : (xs ys zs : List A) → ((xs ++ ys) ++ zs) ≡ (xs ++ (ys ++ zs))
  append_assoc [] ys zs = refl
  append_assoc (x ∷ xs) ys zs = ap (λ l. x ∷ l) (append_assoc xs ys zs)

  append_nil : (xs : List A) → (xs ++ []) ≡ xs
  append_nil [] = refl
  append_nil (x ∷ xs) = ap (λ l. x ∷ l) (append_nil xs)

  retain-append :
      (p : A → Bool) (xs ys : List A) → retain p (xs ++ ys) ≡ (retain p xs ++ retain p ys)
  retain-append p [] ys = refl
  retain-append p (x ∷ xs) ys = elim (Bool-cases (p x)) [
    | inl hit ↦ rw hit (ap (λ l. x ∷ l) (retain-append p xs ys))
    | inr miss ↦ rw miss (retain-append p xs ys)
  ]

  retain-delete_where : (p : A → Bool) (xs : List A) → retain p (delete_where p xs) ≡ []
  retain-delete_where p [] = refl
  retain-delete_where p (x ∷ xs) = elim (Bool-cases (p x)) [
    | inl hit ↦ rw hit (retain-delete_where p xs)
    | inr miss ↦ rw (miss, miss) (retain-delete_where p xs)
  ]

  retain-delete_other :
      (p q : A → Bool) (xs : List A)
      → ((x : A) → p x ≡ true → q x ≡ false)
      → retain p (delete_where q xs) ≡ retain p xs
  retain-delete_other p q [] apart = refl
  retain-delete_other p q (x ∷ xs) apart = elim (Bool-cases (p x)) [
    | inl hit ↦
        let kept = apart x hit in
        rw (kept, hit) (ap (λ l. x ∷ l) (retain-delete_other p q xs apart))
    | inr miss ↦ elim (Bool-cases (q x)) [
      | inl gone ↦ rw (gone, miss) (retain-delete_other p q xs apart)
      | inr kept ↦ rw (kept, miss) (retain-delete_other p q xs apart)
    ]
  ]

insert_focus-focus :
    (user date index : ℕ) (ids : List ℕ) (d : Desk)
    → (insert_focus user date index ids d).focus ≡ (d.focus ++ rows_of user date index ids)
unfolding insert_focus
insert_focus-focus user date index [] d = rw (append_nil d.focus) refl
insert_focus-focus user date index (id ∷ ids) d =
    insert_focus-focus user date (suc index) ids _
    ∙ append_assoc d.focus _ (rows_of user date (suc index) ids)

own-rows :
    (user date index : ℕ) (ids : List ℕ)
    → retain (is_focus_on user date) (rows_of user date index ids) ≡ rows_of user date index ids
own-rows user date index [] = refl
own-rows user date index (id ∷ ids) =
    rw (==_refl user, ==_refl date, own-rows user date (suc index) ids) refl

other-rows :
    (user date user' date' index : ℕ) (ids : List ℕ)
    → (user == user' && date == date') ≡ false
    → retain (is_focus_on user' date') (rows_of user date index ids) ≡ []
other-rows user date user' date' index [] apart = refl
other-rows user date user' date' index (id ∷ ids) apart =
    rw apart (other-rows user date user' date' (suc index) ids apart)

sort-rows :
    (user date index : ℕ) (ids : List ℕ)
    → sort_by_position (rows_of user date index ids) ≡ rows_of user date index ids
sort-rows user date index [] = refl
sort-rows user date index (id ∷ []) = refl
sort-rows user date index (id ∷ other ∷ ids) =
    let ordered : leb (index + 1) (suc index + 1) ≡ true = ground arith in
    rw (sort-rows user date (suc index) (other ∷ ids), ordered) refl

focus_ids-rows :
    (user date index : ℕ) (ids : List ℕ) → focus_ids (rows_of user date index ids) ≡ ids
focus_ids-rows user date index [] = refl
focus_ids-rows user date index (id ∷ ids) = rw (focus_ids-rows user date (suc index) ids) refl

-- The statements that write a plan leave its rows in the order of the identifiers, from position 1.
pub replace_focus-rows :
    (user date : ℕ) (ids : List ℕ) (d : Desk)
    → focus_rows user date (replace_focus user date ids d) ≡ rows_of user date 0 ids
unfolding focus_rows replace_focus clear_focus
replace_focus-rows user date ids d =
    rw
      (
        insert_focus-focus user date 0 ids (clear_focus user date d),
        retain-append (is_focus_on user date) (delete_where (is_focus_on user date) d.focus)
            (rows_of user date 0 ids),
        retain-delete_where (is_focus_on user date) d.focus,
        own-rows user date 0 ids,
      )
      (sort-rows user date 0 ids)

pub replace_focus-others :
    (user date user' date' : ℕ) (ids : List ℕ) (d : Desk)
    → (user == user' && date == date') ≡ false
    → focus_rows user' date' (replace_focus user date ids d) ≡ focus_rows user' date' d
unfolding focus_rows replace_focus clear_focus
replace_focus-others user date user' date' ids d apart =
    rw
      (
        insert_focus-focus user date 0 ids (clear_focus user date d),
        retain-append (is_focus_on user' date') (delete_where (is_focus_on user date) d.focus)
            (rows_of user date 0 ids),
        retain-delete_other (is_focus_on user' date') (is_focus_on user date) d.focus
            (λ f own. ground (arith, own, apart)),
        other-rows user date user' date' 0 ids apart,
        append_nil (retain (is_focus_on user' date') d.focus),
      )
      refl

-- The plan of a date is at most three tasks, at the positions from 1 in the given order, and the
-- plans of other dates and users are as they were.
pub record Planned (user date : ℕ) (ids : List ℕ) (d d' : Desk) : Type 0 where
  pub few : length ids ≤ 3
  pub rows : focus_rows user date d' ≡ rows_of user date 0 ids
  pub others :
      (user' date' : ℕ)
      → (user == user' && date == date') ≡ false
      → focus_rows user' date' d' ≡ focus_rows user' date' d

-- A new plan for a date that is accepted has no task twice, it is stored in the order of the request,
-- with at most three tasks at the positions from 1, and the plans of other dates and users are as they
-- were.
pub update_daily_focus-Planned :
    (user date : ℕ) (ids : List ℕ) (d d' : Desk) (tasks : List Task)
    → update_daily_focus user date ids d ≡ ok (d', tasks)
    → (has_duplicates ids ≡ false) × Planned user date ids d d'
unfolding update_daily_focus focus_rows
update_daily_focus-Planned user date ids d d' tasks h =
    let (few, h1) = fail_if-eq-ok (ltb 3 (length ids)) many_error _ h in
    let (once, h2) = fail_if-eq-ok (has_duplicates ids) repeated_error _ h1 in
    let (_, h3) = fail_if-eq-ok (not (any (is_user user) d.users)) unauthorized _ h2 in
    let (_, h4) =
      fail_if-eq-ok (not (length (retain (is_choosable user ids) d.tasks) == length ids))
        choice_error _ h3 in
    let start : Desk = record d { revisions = bump user (focus_on date) d.revisions } in
    let same : replace_focus user date ids start ≡ d' = cc h4 in
    (
      once,
      record {
        few = ground (arith, few);
        rows = rw (← same) (replace_focus-rows user date ids start);
        others = λ user' date' apart.
            rw (← same) (replace_focus-others user date user' date' ids start apart);
      },
    )
