-- ===== src/Jobs/Workers/Exclusion.antt =====
-- No two workers hold the same job, and a job is attempted at most eight times.
use prosepect.Base.{
  ℕ, ◌+◌, ◌≤◌, ◌<◌, ◌≡◌, ◌≢◌, refl, sym, ◌∙◌, inl, inr, List, [], ◌∷◌, ◌++◌, ==_iff, Bool-cases,
  All, All-imp, All-both, All-without, All-update_where, update_where,
}
use prosepect.Jobs.{running, SyncJob, ClaimedSyncJob, Queue, has_id, max_attempts}
use prosepect.Jobs.Workers.{System}

-- A row is consistent: it has had at most eight attempts, and its identifier is drawn.
pub record IsConsistent (next_id : ℕ) (j : SyncJob) : Type 0 where
  pub drawn : j.id < next_id
  pub few : j.attempt_count ≤ max_attempts

-- If the row is the claimed one, it runs, in the attempt that the claim began.
abbrev pub RunsFor : ClaimedSyncJob → SyncJob → Type 0
RunsFor c j = j.id ≡ c.id → (j.status ≡ running) × (j.attempt_count ≡ c.attempt_count + 1)

abbrev pub UniqueIds : List SyncJob → Type 0
UniqueIds [] = Unit
UniqueIds (j ∷ js) = All (λ k. k.id ≢ j.id) js × UniqueIds js

abbrev pub Holds : Queue → ℕ → ClaimedSyncJob → Type 0
Holds q next_id c = (c.id < next_id) × All (RunsFor c) q.jobs

-- No two of the workers hold the same job.
abbrev pub Exclusive : List ClaimedSyncJob → Type 0
Exclusive [] = Unit
Exclusive (c ∷ cs) = All (λ d. d.id ≢ c.id) cs × Exclusive cs

pub record IsSound (s : System) : Type 0 where
  pub rows : All (IsConsistent s.next_id) s.queue.jobs
  pub keys : UniqueIds s.queue.jobs
  pub held : All (Holds s.queue s.next_id) s.workers
  pub exclusive : Exclusive s.workers

pub Exclusive-without :
    (xs ys : List ClaimedSyncJob) (c : ClaimedSyncJob)
    → Exclusive (xs ++ (c ∷ ys))
    → Exclusive (xs ++ ys) × All (λ d. d.id ≢ c.id) (xs ++ ys)
Exclusive-without [] ys c h = (h.1, h.0)
Exclusive-without (x ∷ xs) ys c h =
    let (rest, others) = Exclusive-without xs ys c h.1 in
    let (first, apart) = All-without (λ d. d.id ≢ x.id) xs ys c h.0 in
    ((apart, rest), ((λ e. first (sym e)), others))

-- An update that keeps the identifiers keeps them unique.
pub UniqueIds-update :
    (id : ℕ) (f : SyncJob → SyncJob) (js : List SyncJob)
    → ((j : SyncJob) → (f j).id ≡ j.id)
    → UniqueIds js
    → UniqueIds (update_where (has_id id) f js)
UniqueIds-update id f [] same u = tt
UniqueIds-update id f (j ∷ js) same u =
    let fresh : All (λ k. k.id ≢ j.id) (update_where (has_id id) f js) =
      All-update_where (λ k. k.id ≢ j.id) (has_id id) f js (λ x _ ne e. ne (sym (same x) ∙ e))
        u.0 in
    elim (Bool-cases (has_id id j)) [
      | inl t ↦ rw t (
        All-imp (λ k. k.id ≢ j.id) (λ k. k.id ≢ (f j).id) _ (λ k ne e. ne (e ∙ same j)) fresh,
        UniqueIds-update id f js same u.1,
      )
      | inr t ↦ rw t (fresh, UniqueIds-update id f js same u.1)
    ]

-- Where the identifiers are unique, a row is known by its identifier.
abbrev pub SameRow : SyncJob → SyncJob → Type 0
SameRow j k = k.id ≡ j.id → k ≡ j

pub UniqueIds-SameRow : (js : List SyncJob) → UniqueIds js → All (λ j. All (SameRow j) js) js
UniqueIds-SameRow [] u = tt
UniqueIds-SameRow (j ∷ js) u = (
  ((λ _. refl), All-imp (λ k. k.id ≢ j.id) (SameRow j) js (λ k ne e. absurd (ne e)) u.0),
  All-imp (λ k. (k.id ≢ j.id) × All (SameRow k) js) (λ k. All (SameRow k) (j ∷ js)) js
      (λ k h. ((λ e. absurd (h.0 (sym e))), h.1))
      (All-both (λ k. k.id ≢ j.id) (λ k. All (SameRow k) js) js u.0 (UniqueIds-SameRow js u.1)),
)

-- An update of another row leaves a claim as it was.
pub RunsFor-update :
    (id : ℕ) (f : SyncJob → SyncJob) (js : List SyncJob) (c : ClaimedSyncJob)
    → ((j : SyncJob) → (f j).id ≡ j.id)
    → c.id ≢ id
    → All (RunsFor c) js
    → All (RunsFor c) (update_where (has_id id) f js)
RunsFor-update id f js c same ne h =
    All-update_where (RunsFor c) (has_id id) f js
      (λ j t _ e. absurd (ne (sym e ∙ same j ∙ (==_iff j.id id).0 t))) h

-- A worker reports the end of its attempt, by an update that keeps identifiers and attempts.
pub finish-IsSound :
    (f : SyncJob → SyncJob) (s : System) (before later : List ClaimedSyncJob) (c : ClaimedSyncJob)
    → ((j : SyncJob) → (f j).id ≡ j.id)
    → ((j : SyncJob) → (f j).attempt_count ≡ j.attempt_count)
    → s.workers ≡ before ++ (c ∷ later)
    → IsSound s
    → IsSound (record s {
      queue = record s.queue { jobs = update_where (has_id c.id) f s.queue.jobs };
      workers = before ++ later;
    })
finish-IsSound f s before later c same tries split h =
    let (mine, others) =
      All-without (Holds s.queue s.next_id) before later c (rw split at h.held) in
    let (rest, apart) = Exclusive-without before later c (rw split at h.exclusive) in
    record {
      rows =
          All-update_where (IsConsistent s.next_id) (has_id c.id) f s.queue.jobs
            (λ j _ k. record { drawn = rw same k.drawn; few = rw tries k.few }) h.rows;
      keys = UniqueIds-update c.id f s.queue.jobs same h.keys;
      held =
          All-imp (λ d. Holds s.queue s.next_id d × (d.id ≢ c.id)) _ (before ++ later)
            (λ d k. (k.0.0, RunsFor-update c.id f s.queue.jobs d same k.1 k.0.1))
            (All-both (Holds s.queue s.next_id) (λ d. d.id ≢ c.id) (before ++ later) others apart);
      exclusive = rest;
    }
