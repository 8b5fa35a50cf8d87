-- ===== src/Jobs/Run.antt =====
-- `run_once` of apps/api/src/sync_service.rs: one turn of a worker. What other transactions do while
-- the worker waits for the user's lock, and the synchronization itself, are arguments.
use prosepect.Base.{
  ℕ, zero, suc, ◌+◌, ◌≡◌, ◌≢◌, refl, sym, ◌∙◌, subst, inl, inr, String, Option, none, some, Bool,
  true, false, List, [], ◌∷◌, ◌++◌, leb, ltb, if◌then◌else◌, Bool-cases, Text, find?, All, All-imp,
  update_where, ==_iff, arith,
}
use prosepect.Jobs.{
  running, SyncJob, ClaimedSyncJob, Queue, has_id, is_running, claim_first, start_job,
  claim_sync_job, complete_sync_job, fail_sync_job, succeed_job, fail_job,
}
use prosepect.Jobs.Workers.Exclusion.{UniqueIds, UniqueIds-update}

-- `Result<()>` of the synchronization.
pub data Outcome : Type 0 where
  done : Outcome
  failure : Text → Outcome

-- The receipts stand in the order in which they expire: the first hundred that have expired go.
unfoldable pub drop_expired : ℕ → ℕ → List ℕ → List ℕ
drop_expired zero now undos = undos
drop_expired (suc room) now [] = []
drop_expired (suc room) now (expires_at ∷ undos) =
    let rest = drop_expired room now undos in
    if leb expires_at now then rest else expires_at ∷ undos

unfoldable pub cleanup_task_delete_undos : ℕ → Queue → Queue
unfolding drop_expired
cleanup_task_delete_undos now q = record q {
  task_delete_undos = drop_expired 100 now q.task_delete_undos;
}

unfoldable pub record_activity : ℕ → String → String → Queue → Queue
record_activity user kind message q = record q {
  activity = q.activity ++ record { user_id = user; kind = kind; message = message } ∷ [];
}

unfoldable pub report : ClaimedSyncJob → ℕ → Outcome → Queue → Queue
unfolding record_activity
report c now done q =
    record_activity c.user_id "synchronization_succeeded" "Calendar synchronization completed"
      (complete_sync_job c.id now q)
report c now (failure error) q =
    record_activity c.user_id "synchronization_failed"
      (if ltb (c.attempt_count + 1) 8
        then "Calendar synchronization failed and will be retried"
        else "Calendar synchronization failed after the final attempt")
      (fail_sync_job c.id (c.attempt_count + 1) now error q)

-- `SELECT status FROM sync_jobs WHERE id = $1`, compared with `running`.
abbrev pub runs : Option SyncJob → Bool
runs none = false
runs (some j) = is_running j.status

abbrev attempt : (ClaimedSyncJob → Queue → Queue × Outcome) → ℕ → ClaimedSyncJob → Queue → Queue
attempt execute ended c q = let (q', outcome) = execute c q in report c ended outcome q'

abbrev turn :
    (Queue → Queue)
    → (ClaimedSyncJob → Queue → Queue × Outcome)
    → ℕ
    → Queue × Option ClaimedSyncJob
    → Queue × Bool
turn await execute ended (q, none) = (q, false)
turn await execute ended (q, some c) =
    if runs (find? (has_id c.id) (await q).jobs)
    then (attempt execute ended c (await q), true)
    else (await q, true)

unfoldable pub run_once :
    (ℕ → Bool)
    → (Queue → Queue)
    → (ClaimedSyncJob → Queue → Queue × Outcome)
    → ℕ
    → ℕ
    → Queue
    → Queue × Bool
unfolding cleanup_task_delete_undos report
run_once locked await execute now ended q =
    turn await execute ended (claim_sync_job locked now (cleanup_task_delete_undos now q))

-- No row of the identifier is running.
abbrev pub Settled : ℕ → List SyncJob → Type 0
Settled id js = All (λ j. j.id ≡ id → j.status ≢ running) js

settle :
    (id : ℕ) (f : SyncJob → SyncJob) (js : List SyncJob)
    → ((j : SyncJob) → (f j).status ≢ running)
    → Settled id (update_where (has_id id) f js)
settle id f [] out = tt
settle id f (j ∷ js) out = elim (Bool-cases (has_id id j)) [
  | inl t ↦ rw t ((λ _. out j), settle id f js out)
  | inr t ↦ rw t ((λ e. absurd (cc (t, (==_iff j.id id).1 e))), settle id f js out)
]

report-Settled :
    (c : ClaimedSyncJob) (ended : ℕ) (o : Outcome) (q : Queue)
    → Settled c.id (report c ended o q).jobs
unfolding report complete_sync_job fail_sync_job
report-Settled c ended done q =
    settle c.id (succeed_job ended) q.jobs (λ j e. unfold succeed_job in cc e)
report-Settled c ended (failure error) q =
    settle c.id (fail_job (c.attempt_count + 1) ended error) q.jobs (λ j e. unfold fail_job in cc e)

-- The row that a query by identifier finds is the only one.
idle-Settled :
    (id : ℕ) (js : List SyncJob)
    → UniqueIds js
    → runs (find? (has_id id) js) ≡ false
    → Settled id js
idle-Settled id [] u h = tt
idle-Settled id (j ∷ js) u h = elim (Bool-cases (has_id id j)) [
  | inl t ↦
      let is_id = (==_iff j.id id).0 t in
      (
        (λ _ e. absurd (cc (rw (t, e) at h))),
        All-imp (λ k. k.id ≢ j.id) (λ k. k.id ≡ id → k.status ≢ running) js
            (λ k ne e. absurd (ne (e ∙ sym is_id))) u.0,
      )
  | inr t ↦ ((λ e. absurd (cc (t, (==_iff j.id id).1 e))), idle-Settled id js u.1 (rw t at h))
]

claim_first-UniqueIds :
    (now : ℕ) (first : Option SyncJob) (q : Queue)
    → UniqueIds q.jobs
    → UniqueIds (claim_first now first q).0.jobs
unfolding start_job
claim_first-UniqueIds now none q unique = unique
claim_first-UniqueIds now (some j) q unique =
    UniqueIds-update j.id (start_job now) q.jobs (λ k. refl) unique

claim-UniqueIds :
    (locked : ℕ → Bool) (now : ℕ) (q : Queue)
    → UniqueIds q.jobs
    → UniqueIds (claim_sync_job locked now q).0.jobs
unfolding claim_sync_job
claim-UniqueIds locked now q unique = claim_first-UniqueIds now _ q unique

module _ (locked : ℕ → Bool) (await : Queue → Queue)
    (execute : ClaimedSyncJob → Queue → Queue × Outcome) (now ended : ℕ) (q : Queue) where
  turn-Settled :
      (q' : Queue) (c : ClaimedSyncJob)
      → UniqueIds (await q').jobs
      → Settled c.id (turn await execute ended (q', some c)).0.jobs
  turn-Settled q' c u = elim (Bool-cases (runs (find? (has_id c.id) (await q').jobs))) [
    | inl t ↦ rw t (report-Settled c ended (execute c (await q')).1 (execute c (await q')).0)
    | inr t ↦ rw t (idle-Settled c.id (await q').jobs u t)
  ]

  turn_claimed :
      (p : Queue × Option ClaimedSyncJob) (c : ClaimedSyncJob)
      → UniqueIds (await p.0).jobs
      → p.1 ≡ some c
      → Settled c.id (turn await execute ended p).0.jobs × ((turn await execute ended p).1 ≡ true)
  turn_claimed (q', none) c keyed e = absurd (cc)
  turn_claimed (q', some d) c keyed e =
      let same : d ≡ c = cc in
      (
        subst (λ (x : ClaimedSyncJob). Settled x.id (turn await execute ended (q', some d)).0.jobs)
            same (turn-Settled q' d keyed),
        ground arith,
      )

  run_lem :
      run_once locked await execute now ended q
      ≡ turn await execute ended (claim_sync_job locked now (cleanup_task_delete_undos now q))
  run_lem = unfold run_once in refl

  -- Where no two jobs have one identifier, a turn that claims a job reports `true` and leaves no row
  -- of that job running, whatever other transactions do before it starts that keep identifiers
  -- unique where they were, and whether the synchronization succeeds or fails.
  pub run_once-Settled :
      (c : ClaimedSyncJob)
      → ((q' : Queue) → UniqueIds q'.jobs → UniqueIds (await q').jobs)
      → UniqueIds q.jobs
      → (claim_sync_job locked now (cleanup_task_delete_undos now q)).1 ≡ some c
      → Settled c.id (run_once locked await execute now ended q).0.jobs
        × ((run_once locked await execute now ended q).1 ≡ true)
  run_once-Settled c keeps unique e =
      let cleaned = cleanup_task_delete_undos now q in
      let kept : UniqueIds cleaned.jobs = unfold cleanup_task_delete_undos in unique in
      rw run_lem (
        turn_claimed (claim_sync_job locked now cleaned) c
          (keeps (claim_sync_job locked now cleaned).0 (claim-UniqueIds locked now cleaned kept)) e)
