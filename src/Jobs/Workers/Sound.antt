-- ===== src/Jobs/Workers/Sound.antt =====
-- Every step of the workers keeps the system sound.
use prosepect.Base.{
  ℕ, suc, ◌+◌, ◌≤◌, ◌<◌, ◌≡◌, ◌≢◌, refl, sym, ap, ◌∙◌, inl, inr, Option, Bool, true, String, Text,
  List, [], ◌∷◌, ◌++◌, arith, ==_iff, Bool-cases, All, All-append, All-retain, All-update_split,
  All-imp, All-both, All-without, update_where, retain,
}
use prosepect.Jobs.{
  running, SyncJob, ClaimedSyncJob, Queue, has_id, is_claimable, start_job, succeed_job, fail_job,
  claimed_of, complete_sync_job, fail_sync_job, max_attempts, new_job,
}
use prosepect.Jobs.Claim.{Chosen, claim_sync_job-Chosen}
use prosepect.Jobs.Enqueue.{Enqueued, repeated, added, enqueue_sync-Enqueued}
use prosepect.Jobs.Workers.{
  System, Step, enqueue, claim, complete, fail, crash, delete, tick, Steps, here, next, start,
}
use prosepect.Jobs.Workers.Exclusion.{
  IsConsistent, RunsFor, UniqueIds, Holds, IsSound, Exclusive-without, UniqueIds-update, SameRow,
  UniqueIds-SameRow, RunsFor-update, finish-IsSound,
}

pub claimable_facts :
    (locked : ℕ → Bool) (now : ℕ) (j : SyncJob)
    → is_claimable locked now j ≡ true
    → (j.attempt_count < max_attempts) × (j.status ≢ running)
unfolding is_claimable
claimable_facts locked now j h = (ground arith, λ e. ground arith)

start_job-id : (now : ℕ) (j : SyncJob) → (start_job now j).id ≡ j.id
unfolding start_job
start_job-id now j = refl

-- The started row, known to be the chosen one.
start_job-IsConsistent :
    (j : SyncJob) (now next_id : ℕ) (x : SyncJob)
    → j.attempt_count < max_attempts
    → has_id j.id x ≡ true
    → IsConsistent next_id x × SameRow j x
    → IsConsistent next_id (start_job now x)
unfolding start_job
start_job-IsConsistent j now next_id x few t p =
    let same = p.1 ((==_iff x.id j.id).0 t) in
    record { drawn = p.0.drawn; few = omega (arith, ap (λ (k : SyncJob). k.attempt_count) same) }

start_job-RunsFor :
    (j : SyncJob) (c : ClaimedSyncJob) (now : ℕ) (x : SyncJob)
    → c ≡ claimed_of j
    → has_id j.id x ≡ true
    → SameRow j x
    → RunsFor c (start_job now x)
unfolding start_job
start_job-RunsFor j c now x claimed t p e =
    let same = p ((==_iff x.id j.id).0 t) in
    (
      refl,
      cc (
        ap (λ (k : SyncJob). k.attempt_count) same,
        ap (λ (d : ClaimedSyncJob). d.attempt_count) claimed,
      ),
    )

module _ (s : System) (locked : ℕ → Bool) (c : ClaimedSyncJob) (r : Chosen locked s.now s.queue c)
    (h : IsSound s) where
  abbrev claimed_jobs : List SyncJob
  claimed_jobs = update_where (has_id r.job.id) (start_job s.now) s.queue.jobs

  claimed-id : c.id ≡ r.job.id
  claimed-id = ap (λ (d : ClaimedSyncJob). d.id) r.claimed

  same_rows : All (SameRow r.job) s.queue.jobs
  same_rows = r.member (λ k. All (SameRow k) s.queue.jobs) (UniqueIds-SameRow s.queue.jobs h.keys)

  -- A worker's job runs, and the chosen one waits.
  apart : All (λ d. d.id ≢ c.id) s.workers
  apart =
      let (few, idle) = claimable_facts locked s.now r.job r.claimable in
      All-imp (Holds s.queue s.next_id) (λ d. d.id ≢ c.id) s.workers
        (λ d k e. idle ((r.member (RunsFor d) k.1) (sym (e ∙ claimed-id))).0) h.held

  claim-IsSound :
      IsSound (record s { queue = record s.queue { jobs = claimed_jobs }; workers = c ∷ s.workers })
  claim-IsSound = record {
    rows =
        All-update_split (λ k. IsConsistent s.next_id k × SameRow r.job k) (IsConsistent s.next_id)
          (has_id r.job.id) (start_job s.now) s.queue.jobs
          (λ x t p.
            start_job-IsConsistent r.job s.now s.next_id x
              (claimable_facts locked s.now r.job r.claimable).0 t p)
          (λ k _ p. p.0) (All-both _ _ s.queue.jobs h.rows same_rows);
    keys = UniqueIds-update r.job.id (start_job s.now) s.queue.jobs (start_job-id s.now) h.keys;
    held = (
      (
        rw claimed-id (r.member (IsConsistent s.next_id) h.rows).drawn,
        All-update_split (SameRow r.job) (RunsFor c) (has_id r.job.id) (start_job s.now)
            s.queue.jobs (λ x t p. start_job-RunsFor r.job c s.now x r.claimed t p)
            (λ x f _ e. absurd (cc (f, (==_iff x.id r.job.id).1 (e ∙ claimed-id)))) same_rows,
      ),
      All-imp (λ d. Holds s.queue s.next_id d × (d.id ≢ c.id)) _ s.workers
          (λ d k. (
            k.0.0,
            RunsFor-update r.job.id (start_job s.now) s.queue.jobs d (start_job-id s.now)
                (λ e. k.1 (e ∙ sym claimed-id)) k.0.1,
          ))
          (All-both _ _ s.workers h.held apart),
    );
    exclusive = (apart, h.exclusive);
  }

Holds-more :
    (q q' : Queue) (n m : ℕ) (cs : List ClaimedSyncJob)
    → n ≤ m
    → ((c : ClaimedSyncJob) → c.id < n → All (RunsFor c) q.jobs → All (RunsFor c) q'.jobs)
    → All (Holds q n) cs
    → All (Holds q' m) cs
Holds-more q q' n m cs le keep h =
    All-imp (Holds q n) (Holds q' m) cs (λ c k. (omega (arith, k.0), keep c k.0 k.1)) h

UniqueIds-append :
    (n : ℕ) (js : List SyncJob) (j : SyncJob)
    → n ≤ j.id
    → All (IsConsistent n) js
    → UniqueIds js
    → UniqueIds (js ++ j ∷ [])
UniqueIds-append n [] j le h u = (tt, tt)
UniqueIds-append n (k ∷ js) j le h u = (
  All-append (λ x. x.id ≢ k.id) js (j ∷ []) u.0 ((λ e. omega (arith, h.0.drawn)), tt),
  UniqueIds-append n js j le h.1 u.1,
)

UniqueIds-retain :
    (keep : SyncJob → Bool) (js : List SyncJob) → UniqueIds js → UniqueIds (retain keep js)
UniqueIds-retain keep [] u = tt
UniqueIds-retain keep (j ∷ js) u = elim (Bool-cases (keep j)) [
  | inl e ↦ rw e (All-retain (λ k. k.id ≢ j.id) keep js u.0, UniqueIds-retain keep js u.1)
  | inr e ↦ rw e (UniqueIds-retain keep js u.1)
]

-- A new row under the identifier that was just drawn.
append-IsSound :
    (s : System) (id : ℕ) (j : SyncJob)
    → s.next_id ≤ id
    → j.id ≡ id
    → j.attempt_count ≡ 0
    → IsSound s
    → IsSound
        (record s { queue = record s.queue { jobs = s.queue.jobs ++ j ∷ [] }; next_id = suc id })
append-IsSound s id j le is_id fresh h = record {
  rows =
      All-append (IsConsistent (suc id)) s.queue.jobs (j ∷ [])
        (All-imp (IsConsistent s.next_id) (IsConsistent (suc id)) s.queue.jobs
          (λ k c. record { drawn = omega (arith, c.drawn); few = c.few }) h.rows)
        (record { drawn = omega arith; few = omega arith }, tt);
  keys = UniqueIds-append s.next_id s.queue.jobs j (omega arith) h.rows h.keys;
  held =
      Holds-more s.queue (record s.queue { jobs = s.queue.jobs ++ j ∷ [] }) s.next_id (suc id)
        s.workers (omega arith)
        (λ c low k.
          All-append (RunsFor c) s.queue.jobs (j ∷ []) k ((λ e. absurd (omega arith)), tt))
        h.held;
  exclusive = h.exclusive;
}

undrawn-IsSound :
    (s : System) (id : ℕ) → s.next_id ≤ id → IsSound s → IsSound (record s { next_id = suc id })
undrawn-IsSound s id le h = record {
  rows =
      All-imp (IsConsistent s.next_id) (IsConsistent (suc id)) s.queue.jobs
        (λ k c. record { drawn = omega (arith, c.drawn); few = c.few }) h.rows;
  keys = h.keys;
  held =
      Holds-more s.queue s.queue s.next_id (suc id) s.workers (omega arith) (λ c low k. k) h.held;
  exclusive = h.exclusive;
}

enqueue-IsSound :
    (s : System) (id user : ℕ) (calendar : Option ℕ) (kind : String) (key : Text) (q : Queue)
    (j : SyncJob)
    → s.next_id ≤ id
    → Enqueued id s.now user calendar kind key s.queue q j
    → IsSound s
    → IsSound (record s { queue = q; next_id = suc id })
enqueue-IsSound s id user calendar kind key q j le (repeated same found) h =
    rw same (undrawn-IsSound s id le h)
enqueue-IsSound s id user calendar kind key q j le (added missing free is_new result) h =
    rw result
      (append-IsSound s id j le (unfold new_job in rw is_new) (unfold new_job in rw is_new) h)

delete-IsSound :
    (s : System) (keep : SyncJob → Bool)
    → IsSound s
    → IsSound (record s { queue = record s.queue { jobs = retain keep s.queue.jobs } })
delete-IsSound s keep h = record {
  rows = All-retain (IsConsistent s.next_id) keep s.queue.jobs h.rows;
  keys = UniqueIds-retain keep s.queue.jobs h.keys;
  held =
      Holds-more s.queue (record s.queue { jobs = retain keep s.queue.jobs }) s.next_id s.next_id
        s.workers (omega arith) (λ c low k. All-retain (RunsFor c) keep s.queue.jobs k) h.held;
  exclusive = h.exclusive;
}

crash-IsSound :
    (s : System) (before later : List ClaimedSyncJob) (c : ClaimedSyncJob)
    → s.workers ≡ before ++ (c ∷ later)
    → IsSound s
    → IsSound (record s { workers = before ++ later })
crash-IsSound s before later c split h = record {
  rows = h.rows;
  keys = h.keys;
  held = (All-without (Holds s.queue s.next_id) before later c (rw split at h.held)).1;
  exclusive = (Exclusive-without before later c (rw split at h.exclusive)).0;
}

-- Every step keeps the system sound.
pub Step-IsSound : {s t : System} → Step s t → IsSound s → IsSound t
Step-IsSound {s} (enqueue id user calendar kind key q j le e) h =
    enqueue-IsSound s id user calendar kind key q j le
      (enqueue_sync-Enqueued id s.now user calendar kind key s.queue q j e) h
Step-IsSound {s} (claim locked c e) h =
    let r = claim_sync_job-Chosen locked s.now s.queue c e in
    rw r.started (claim-IsSound s locked c r h)
Step-IsSound {s} (complete before later c split) h =
    unfold complete_sync_job succeed_job in
    finish-IsSound (succeed_job s.now) s before later c (λ j. refl) (λ j. refl) split h
Step-IsSound {s} (fail before later c error split) h =
    unfold fail_sync_job fail_job in
    finish-IsSound (fail_job (c.attempt_count + 1) s.now error) s before later c (λ j. refl)
      (λ j. refl) split h
Step-IsSound {s} (crash before later c split) h = crash-IsSound s before later c split h
Step-IsSound {s} (delete keep) h = delete-IsSound s keep h
Step-IsSound (tick t) h = record {
  rows = h.rows;
  keys = h.keys;
  held = h.held;
  exclusive = h.exclusive;
}

-- In every state that the workers can reach from an empty queue, no two live workers hold the same
-- job; the job of each, if its row is still there, is running, in the attempt that the claim began;
-- no two rows share an identifier; and no job has had more than eight attempts.
pub Steps-IsSound : (calendars : List (ℕ × ℕ)) {s : System} → Steps (start calendars) s → IsSound s
Steps-IsSound calendars here = record { rows = tt; keys = tt; held = tt; exclusive = tt }
Steps-IsSound calendars (next r st) = Step-IsSound st (Steps-IsSound calendars r)
