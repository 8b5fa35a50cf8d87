-- ===== src/Store/Ancestors.antt =====
-- The recursive query for the parents of a task in validate_task_relationships of
-- apps/api/src/store.rs: the number of the rows is enough fuel for it.
use prosepect.Base.{
  ℕ, zero, suc, ◌≤◌, ◌<◌, ◌≡◌, refl, sym, subst, ◌∙◌, ◌↔◌, ◌⊎◌, inl, inr, none, some, true, false,
  ◌==◌, Bool-cases, Option-cases, find?, length, delete_where, List, [], ◌∷◌, arith,
}
use prosepect.Tasks.{RecurringTaskState}
use prosepect.Store.{is_task}
use prosepect.Store.Relations.{in_parent_chain}

module _ (user target : ℕ) where
  -- The target is the task or one of the parents above it.
  pub data InChain (rows : List RecurringTaskState) : ℕ → Type 0 where
    found :
        (id : ℕ) (t : RecurringTaskState)
        → find? (is_task user id) rows ≡ some t
        → (t.task.id == target) ≡ true
        → InChain rows id
    above :
        (id parent : ℕ) (t : RecurringTaskState)
        → find? (is_task user id) rows ≡ some t
        → t.task.parent_task_id ≡ some parent
        → InChain rows parent
        → InChain rows id

  -- A turn of the query that succeeds.
  data Turn (rows : List RecurringTaskState) (fuel id : ℕ) : Type 0 where
    hit :
        (t : RecurringTaskState)
        → find? (is_task user id) rows ≡ some t
        → (t.task.id == target) ≡ true
        → Turn rows fuel id
    up :
        (t : RecurringTaskState) (parent : ℕ)
        → find? (is_task user id) rows ≡ some t
        → t.task.parent_task_id ≡ some parent
        → in_parent_chain fuel rows user parent target ≡ true
        → Turn rows fuel id

  turn :
      (rows : List RecurringTaskState) (fuel id : ℕ)
      → in_parent_chain (suc fuel) rows user id target ≡ true
      → Turn rows fuel id
  unfolding in_parent_chain
  turn rows fuel id h = elim (Option-cases (find? (is_task user id) rows)) [
    | inl missing ↦ cc (rw (in_parent_chain, missing) at h)
    | inr (t, there) ↦ elim (Bool-cases (t.task.id == target)) [
      | inl own ↦ hit t there own
      | inr other ↦ elim (Option-cases t.task.parent_task_id) [
        | inl top ↦ cc (rw (in_parent_chain, there, other, top) at h)
        | inr (parent, link) ↦
            up t parent there link (rw (in_parent_chain, there, other, link) at h)
      ]
    ]
  ]

  back :
      (rows : List RecurringTaskState) (fuel id : ℕ)
      → Turn rows fuel id
      → in_parent_chain (suc fuel) rows user id target ≡ true
  unfolding in_parent_chain
  back rows fuel id (hit t there own) = rw (in_parent_chain, there, own) refl
  back rows fuel id (up t parent there link h) = rw (in_parent_chain, there, link, h) (ground arith)

  no-fuel :
      (rows : List RecurringTaskState) (id : ℕ)
      → in_parent_chain zero rows user id target ≡ true
      → ⊥
  unfolding in_parent_chain
  no-fuel rows id h = cc h

  one-more :
      (rows : List RecurringTaskState) (fuel id : ℕ)
      → in_parent_chain fuel rows user id target ≡ true
      → in_parent_chain (suc fuel) rows user id target ≡ true
  one-more rows zero id h = absurd (no-fuel rows id h)
  one-more rows (suc fuel) id h = back rows (suc fuel) id (elim (turn rows fuel id h) [
    | hit t there own ↦ hit t there own
    | up t parent there link k ↦ up t parent there link (one-more rows fuel parent k)
  ])

  more-fuel :
      (rows : List RecurringTaskState) (fuel more id : ℕ)
      → fuel ≤ more
      → in_parent_chain fuel rows user id target ≡ true
      → in_parent_chain more rows user id target ≡ true
  more-fuel rows fuel zero id small h =
      let none_left : fuel ≡ 0 = ground (arith, small) in
      subst (λ n. in_parent_chain n rows user id target ≡ true) none_left h
  more-fuel rows fuel (suc more) id small h = elim (Bool-cases (fuel == suc more)) [
    | inl same ↦
        let all : fuel ≡ suc more = ground (arith, same) in
        subst (λ n. in_parent_chain n rows user id target ≡ true) all h
    | inr other ↦
        one-more rows more id (more-fuel rows fuel more id (ground (arith, small, other)) h)
  ]

  rest-other :
      (rows : List RecurringTaskState) (id other : ℕ)
      → (other == id) ≡ false
      → find? (is_task user other) (delete_where (is_task user id) rows)
        ≡ find? (is_task user other) rows
  rest-other [] id other apart = refl
  rest-other (t ∷ rows) id other apart = elim (Bool-cases (is_task user id t)) [
    | inl gone ↦
        let miss : is_task user other t ≡ false = ground arith in
        rw (gone, miss) (rest-other rows id other apart)
    | inr kept ↦ elim (Bool-cases (is_task user other t)) [
      | inl own ↦ rw (kept, own) refl
      | inr miss ↦ rw (kept, miss) (rest-other rows id other apart)
    ]
  ]

  rest-none :
      (rows : List RecurringTaskState) (id : ℕ)
      → find? (is_task user id) (delete_where (is_task user id) rows) ≡ none
  rest-none [] id = refl
  rest-none (t ∷ rows) id = elim (Bool-cases (is_task user id t)) [
    | inl gone ↦ rw gone (rest-none rows id)
    | inr kept ↦ rw (kept, kept) (rest-none rows id)
  ]

  rest-le :
      (rows : List RecurringTaskState) (id : ℕ)
      → length (delete_where (is_task user id) rows) ≤ length rows
  rest-le [] id = ground arith
  rest-le (t ∷ rows) id =
      let shorter = rest-le rows id in
      elim (Bool-cases (is_task user id t)) [
        | inl gone ↦ rw gone (ground (arith, shorter))
        | inr kept ↦ rw kept (ground (arith, shorter))
      ]

  rest-lt :
      (rows : List RecurringTaskState) (id : ℕ) (t : RecurringTaskState)
      → find? (is_task user id) rows ≡ some t
      → length (delete_where (is_task user id) rows) < length rows
  rest-lt [] id t h = cc
  rest-lt (u ∷ rows) id t h = elim (Bool-cases (is_task user id u)) [
    | inl gone ↦ rw gone (ground (arith, rest-le rows id))
    | inr kept ↦ let shorter = rest-lt rows id t (rw kept at h) in rw kept (ground (arith, shorter))
  ]

  -- A chain goes through a row again, with less fuel, or it does without the row.
  avoids :
      (rows : List RecurringTaskState) (id fuel start : ℕ)
      → in_parent_chain fuel rows user start target ≡ true
      → (in_parent_chain fuel (delete_where (is_task user id) rows) user start target ≡ true)
        ⊎ ((less : ℕ) × (less ≤ fuel) × (in_parent_chain less rows user id target ≡ true))
  avoids rows id zero start h = absurd (no-fuel rows start h)
  avoids rows id (suc fuel) start h = elim (Bool-cases (start == id)) [
    | inl same ↦
        let here : start ≡ id = ground (arith, same) in inr (suc fuel, ground arith, rw (← here) h)
    | inr apart ↦ elim (turn rows fuel start h) [
      | hit t there own ↦ inl (
          back (delete_where (is_task user id) rows) fuel start
            (hit t (rest-other rows id start apart ∙ there) own))
      | up t parent there link k ↦ elim (avoids rows id fuel parent k) [
        | inl without ↦ inl (
            back (delete_where (is_task user id) rows) fuel start
              (up t parent (rest-other rows id start apart ∙ there) link without))
        | inr (less, small, again) ↦ inr (less, ground (arith, small), again)
      ]
    ]
  ]

  rest-missing :
      (rows : List RecurringTaskState) (id fuel start : ℕ)
      → (start == id) ≡ true
      → Turn (delete_where (is_task user id) rows) fuel start
      → ⊥
  rest-missing rows id fuel start same t =
      let here : start ≡ id = ground (arith, same) in
      let gone : find? (is_task user start) (delete_where (is_task user id) rows) ≡ none =
        rw here (rest-none rows id) in
      elim t [ hit u there own ↦ cc | up u parent there link k ↦ cc ]

  -- What a table has without a row, it has.
  restore :
      (rows : List RecurringTaskState) (id fuel start : ℕ)
      → in_parent_chain fuel (delete_where (is_task user id) rows) user start target ≡ true
      → in_parent_chain fuel rows user start target ≡ true
  restore rows id zero start h = absurd (no-fuel (delete_where (is_task user id) rows) start h)
  restore rows id (suc fuel) start h = elim (Bool-cases (start == id)) [
    | inl same ↦ absurd (
        rest-missing rows id fuel start same
          (turn (delete_where (is_task user id) rows) fuel start h))
    | inr apart ↦
        back rows fuel start (elim (turn (delete_where (is_task user id) rows) fuel start h) [
          | hit t there own ↦ hit t (sym (rest-other rows id start apart) ∙ there) own
          | up t parent there link k ↦
              up t parent (sym (rest-other rows id start apart) ∙ there) link
                (restore rows id fuel parent k)
        ])
  ]

  -- A turn that succeeds on what is left of the table without its own row.
  shorter :
      (rows : List RecurringTaskState) (id : ℕ) (t : RecurringTaskState)
      → find? (is_task user id) rows ≡ some t
      → Turn rows (length (delete_where (is_task user id) rows)) id
      → in_parent_chain (length rows) rows user id target ≡ true
  shorter rows id t there k =
      more-fuel rows (suc (length (delete_where (is_task user id) rows))) (length rows) id
        (ground (arith, rest-lt rows id t there))
        (back rows (length (delete_where (is_task user id) rows)) id k)

  enough :
      (bound : ℕ) (rows : List RecurringTaskState) (fuel id : ℕ)
      → fuel ≤ bound
      → in_parent_chain fuel rows user id target ≡ true
      → in_parent_chain (length rows) rows user id target ≡ true
  enough bound rows zero id small h = absurd (no-fuel rows id h)
  enough zero rows (suc fuel) id small h = absurd (ground (arith, small))
  enough (suc bound) rows (suc fuel) id small h = elim (turn rows fuel id h) [
    | hit t there own ↦ shorter rows id t there (hit t there own)
    | up t parent there link k ↦ elim (avoids rows id fuel parent k) [
      | inl without ↦ shorter rows id t there (
          up t parent there link (
            restore rows id (length (delete_where (is_task user id) rows)) parent (
              enough bound (delete_where (is_task user id) rows) fuel parent (ground (arith, small))
                without)))
      | inr (less, few, again) ↦ enough bound rows less id (ground (arith, few, small)) again
    ]
  ]

  chain-fuel :
      (rows : List RecurringTaskState) (id : ℕ)
      → InChain rows id
      → (fuel : ℕ) × (in_parent_chain fuel rows user id target ≡ true)
  chain-fuel rows _ (found id t there own) = (1, back rows 0 id (hit t there own))
  chain-fuel rows _ (above id parent t there link chain) =
      let (fuel, h) = chain-fuel rows parent chain in
      (suc fuel, back rows fuel id (up t parent there link h))

  fuel-InChain :
      (rows : List RecurringTaskState) (fuel id : ℕ)
      → in_parent_chain fuel rows user id target ≡ true
      → InChain rows id
  fuel-InChain rows zero id h = absurd (no-fuel rows id h)
  fuel-InChain rows (suc fuel) id h = elim (turn rows fuel id h) [
    | hit t there own ↦ found id t there own
    | up t parent there link k ↦ above id parent t there link (fuel-InChain rows fuel parent k)
  ]

  -- The query, which takes as many turns at most as the table has rows, answers whether the target is
  -- the task or one of the parents above it, in any table, also in one whose parents form a cycle.
  pub in_parent_chain-InChain :
      (rows : List RecurringTaskState) (id : ℕ)
      → (in_parent_chain (length rows) rows user id target ≡ true) ↔ InChain rows id
  in_parent_chain-InChain rows id = (
    fuel-InChain rows (length rows) id,
    λ chain. let (fuel, h) = chain-fuel rows id chain in enough fuel rows fuel id (ground arith) h,
  )
