-- ===== src/Store/Order.antt =====
-- reorder_tasks of apps/api/src/store.rs: the positions that it leaves.
use prosepect.Base.{
  ℕ, zero, suc, ◌+◌, ◌*◌, ◌≤◌, ◌≡◌, refl, sym, ◌∙◌, inl, inr, Option, none, some, Bool, true, false,
  not, ◌&&◌, Bool-cases, if◌then◌else◌, ◌==◌, arith, List, [], ◌∷◌, map, length, retain,
  update_where, All, All-imp,
}
use prosepect.Error.{ok, fail_if, fail_if-eq-ok, ◌>>◌}
use prosepect.Tasks.{RecurringTaskState}
use prosepect.Store.{Db, is_task}
use prosepect.Store.Tasks.{
  contains, has_duplicates, duplicates_error, missing_error, foreign_error, is_owned, move_to,
  set_positions, reorder_tasks,
}

abbrev pub get_elem? : ℕ → List ℕ → Option ℕ
get_elem? i [] = none
get_elem? zero (x ∷ xs) = some x
get_elem? (suc i) (x ∷ xs) = get_elem? i xs

-- The task stands in the list, and its position is that of its place, counted from `k`.
pub record Ranked (k : ℕ) (ids : List ℕ) (t : RecurringTaskState) : Type 0 where
  pub place : ℕ
  pub stands : get_elem? place ids ≡ some t.task.id
  pub at : t.task.position ≡ (k + place + 1) * 1024

-- What the loop does to one row.
unfoldable pub place : ℕ → ℕ → List ℕ → RecurringTaskState → RecurringTaskState
place user k [] t = t
place user k (id ∷ ids) t =
    place user (suc k) ids (if is_task user id t then move_to ((k + 1) * 1024) t else t)

module _ {ℓ} {A : Type ℓ} where
  map_same : (g : A → A) (xs : List A) → ((x : A) → g x ≡ x) → map g xs ≡ xs
  map_same g [] h = refl
  map_same g (x ∷ xs) h = cc (h x, map_same g xs h)

  map-update_where :
      (g f : A → A) (p : A → Bool) (xs : List A)
      → map g (update_where p f xs) ≡ map (λ x. g (if p x then f x else x)) xs
  map-update_where g f p [] = refl
  map-update_where g f p (x ∷ xs) = cc (map-update_where g f p xs)

  pub All-map {κ} :
      (P : A → Type κ) (g : A → A) (xs : List A) → All (λ x. P (g x)) xs → All P (map g xs)
  All-map P g [] h = tt
  All-map P g (x ∷ xs) h = (h.0, All-map P g xs h.1)

pub set_positions-map :
    (user k : ℕ) (ids : List ℕ) (rows : List RecurringTaskState)
    → set_positions user k ids rows ≡ map (place user k ids) rows
unfolding set_positions place
set_positions-map user k [] rows = sym (map_same (place user k []) rows (λ t. refl))
set_positions-map user k (id ∷ ids) rows =
    set_positions-map user (suc k) ids
      (update_where (is_task user id) (move_to ((k + 1) * 1024)) rows)
    ∙ map-update_where (place user (suc k) ids) (move_to ((k + 1) * 1024)) (is_task user id) rows

module _ {ℓ} {A : Type ℓ} (p q : A → Bool) where
  length-retain_both : (xs : List A) → length (retain (λ x. p x && q x) xs) ≤ length (retain p xs)
  length-retain_both [] = ground arith
  length-retain_both (x ∷ xs) = ground (arith, length-retain_both xs)

  -- Where a further test drops no row, every row passes it.
  All-retain_both :
      (xs : List A)
      → length (retain (λ x. p x && q x) xs) ≡ length (retain p xs)
      → All (λ x. p x ≡ true → q x ≡ true) xs
  All-retain_both [] h = tt
  All-retain_both (x ∷ xs) h = (
    (λ e. ground (arith, length-retain_both xs)),
    All-retain_both xs (ground (arith, length-retain_both xs)),
  )

place-absent :
    (user k : ℕ) (ids : List ℕ) (t : RecurringTaskState)
    → contains t.task.id ids ≡ false
    → place user k ids t ≡ t
unfolding place
place-absent user k [] t h = refl
place-absent user k (id ∷ ids) t h = rw (other) (place-absent user (suc k) ids t (ground arith))
  where
    other : is_task user id t ≡ false
    other = ground arith

place-Ranked :
    (user k : ℕ) (ids : List ℕ) (t : RecurringTaskState)
    → has_duplicates ids ≡ false
    → contains t.task.id ids ≡ true
    → t.user_id ≡ user
    → Ranked k ids (place user k ids t)
unfolding place
place-Ranked user k [] t d h e = cc
place-Ranked user k (id ∷ ids) t d h e = elim (Bool-cases (t.task.id == id)) [
  | inl same ↦
      let found : is_task user id t ≡ true = ground arith in
      let alone : contains t.task.id ids ≡ false = ground arith in
      rw (found, place-absent user (suc k) ids (move_to ((k + 1) * 1024) t) alone)
        (record { place = zero; stands = ground arith; at = ground arith })
  | inr other ↦
      let missed : is_task user id t ≡ false = ground arith in
      let r = place-Ranked user (suc k) ids t (ground arith) (ground arith) e in
      rw missed (record { place = suc r.place; stands = r.stands; at = ground (arith, r.at) })
]

place-user :
    (user k : ℕ) (ids : List ℕ) (t : RecurringTaskState) → (place user k ids t).user_id ≡ t.user_id
unfolding place
place-user user k [] t = refl
place-user user k (id ∷ ids) t =
    place-user user (suc k) ids (if is_task user id t then move_to ((k + 1) * 1024) t else t)
    ∙ ground arith

-- A list of identifiers that reorder_tasks accepts is the order of the user's tasks afterwards:
-- each of them stands in the list, and the one at place i has the position 1024 * (i + 1).
pub reorder_tasks-Ranked :
    (user : ℕ) (ids : List ℕ) (db db' : Db)
    → reorder_tasks user ids db ≡ ok db'
    → All (λ t. t.user_id ≡ user → Ranked 0 ids t) db'.tasks
reorder_tasks-Ranked user ids db db' h =
    let (d, h1) = fail_if-eq-ok (has_duplicates ids) duplicates_error _ (rw reorder_lem at h) in
    let (_, h2) =
      fail_if-eq-ok (not (length (retain (is_owned user) db.tasks) == length ids)) missing_error _
        h1 in
    let (counted, h3) =
      fail_if-eq-ok
        (not (
          length (retain (λ t. is_owned user t && contains t.task.id ids) db.tasks)
          == length (retain (is_owned user) db.tasks)))
        foreign_error (ok (record db { tasks = set_positions user 0 ids db.tasks })) h2 in
    let listed =
      All-retain_both (is_owned user) (λ t. contains t.task.id ids) db.tasks (ground arith) in
    let tasks : map (place user 0 ids) db.tasks ≡ db'.tasks =
      sym (set_positions-map user 0 ids db.tasks) ∙ cc in
    rw (← tasks) (
      All-map (λ t. t.user_id ≡ user → Ranked 0 ids t) (place user 0 ids) db.tasks
        (All-imp (λ t. is_owned user t ≡ true → contains t.task.id ids ≡ true) _ db.tasks
          (λ t stands e.
            let own : t.user_id ≡ user = sym (place-user user 0 ids t) ∙ e in
            place-Ranked user 0 ids t d (stands (ground arith)) own)
          listed))
  where
    reorder_lem : reorder_tasks user ids db ≡ (do
      fail_if (has_duplicates ids) duplicates_error
      fail_if (not (length (retain (is_owned user) db.tasks) == length ids)) missing_error
      fail_if
          (not (
            length (retain (λ t. is_owned user t && contains t.task.id ids) db.tasks)
            == length (retain (is_owned user) db.tasks)))
          foreign_error
      ok (record db { tasks = set_positions user 0 ids db.tasks }))
    reorder_lem = unfold reorder_tasks in refl
