-- ===== src/Jobs/Workers/Stale.antt =====
-- A job whose worker dies stays `running`: the lease that the claim wrote never brings it back.
use prosepect.Base.{
  ℕ, suc, ◌+◌, ◌≤◌, ◌<◌, ◌≡◌, ◌≢◌, refl, sym, ◌∙◌, ap, Option, Bool, String, Text, List, [], ◌∷◌,
  ◌++◌, arith, ==_iff, All, All-append, All-retain, All-update_where, All-imp, All-without,
  update_where,
}
use prosepect.Jobs.{
  running, SyncJob, ClaimedSyncJob, Queue, has_id, start_job, succeed_job, fail_job,
  complete_sync_job, fail_sync_job, new_job,
}
use prosepect.Jobs.Claim.{Chosen, claim_sync_job-Chosen}
use prosepect.Jobs.Enqueue.{Enqueued, repeated, added, enqueue_sync-Enqueued}
use prosepect.Jobs.Workers.{
  System, Step, enqueue, claim, complete, fail, crash, delete, tick, Steps, here, next,
}
use prosepect.Jobs.Workers.Exclusion.{RunsFor, Holds, IsSound, Exclusive-without}
use prosepect.Jobs.Workers.Sound.{claimable_facts}

abbrev pub Runs : ℕ → SyncJob → Type 0
Runs id j = j.id ≡ id → j.status ≡ running

-- The job's row, if it is there, is running, and no worker holds the job.
pub record IsAbandoned (id : ℕ) (s : System) : Type 0 where
  pub drawn : id < s.next_id
  pub stuck : All (Runs id) s.queue.jobs
  pub unheld : All (λ c. c.id ≢ id) s.workers

module _ (id : ℕ) where
  Runs-update :
      (other : ℕ) (f : SyncJob → SyncJob) (js : List SyncJob)
      → ((j : SyncJob) → (f j).id ≡ j.id)
      → other ≢ id
      → All (Runs id) js
      → All (Runs id) (update_where (has_id other) f js)
  Runs-update other f js same ne h =
      All-update_where (Runs id) (has_id other) f js
        (λ j t _ e. absurd (ne (sym ((==_iff j.id other).0 t) ∙ sym (same j) ∙ e))) h

  finish-IsAbandoned :
      (f : SyncJob → SyncJob) (s : System) (before later : List ClaimedSyncJob) (c : ClaimedSyncJob)
      → ((j : SyncJob) → (f j).id ≡ j.id)
      → s.workers ≡ before ++ (c ∷ later)
      → IsAbandoned id s
      → IsAbandoned id (record s {
        queue = record s.queue { jobs = update_where (has_id c.id) f s.queue.jobs };
        workers = before ++ later;
      })
  finish-IsAbandoned f s before later c same split h =
      let (other, rest) = All-without (λ d. d.id ≢ id) before later c (rw split at h.unheld) in
      record {
        drawn = h.drawn;
        stuck = Runs-update c.id f s.queue.jobs same other h.stuck;
        unheld = rest;
      }

  claim-IsAbandoned :
      (s : System) (locked : ℕ → Bool) (c : ClaimedSyncJob) (r : Chosen locked s.now s.queue c)
      → IsAbandoned id s
      → IsAbandoned id (record s {
        queue = record s.queue {
          jobs = update_where (has_id r.job.id) (start_job s.now) s.queue.jobs;
        };
        workers = c ∷ s.workers;
      })
  claim-IsAbandoned s locked c r h =
      let idle = (claimable_facts locked s.now r.job r.claimable).1 in
      let other : r.job.id ≢ id = λ e. idle (r.member (Runs id) h.stuck e) in
      record {
        drawn = h.drawn;
        stuck =
            Runs-update r.job.id (start_job s.now) s.queue.jobs (λ j. unfold start_job in refl)
              other h.stuck;
        unheld = ((λ e. other (sym (ap (λ (d : ClaimedSyncJob). d.id) r.claimed) ∙ e)), h.unheld);
      }

  enqueue-IsAbandoned :
      (s : System) (new_id user : ℕ) (calendar : Option ℕ) (kind : String) (key : Text) (q : Queue)
      (j : SyncJob)
      → s.next_id ≤ new_id
      → Enqueued new_id s.now user calendar kind key s.queue q j
      → IsAbandoned id s
      → IsAbandoned id (record s { queue = q; next_id = suc new_id })
  enqueue-IsAbandoned s new_id user calendar kind key q j le (repeated same found) h =
      rw same (record { drawn = omega (arith, h.drawn); stuck = h.stuck; unheld = h.unheld })
  enqueue-IsAbandoned s new_id user calendar kind key q j le (added missing free is_new result) h =
      let is_id : j.id ≡ new_id = unfold new_job in rw is_new in
      rw result (record {
        drawn = omega (arith, h.drawn);
        stuck =
            All-append (Runs id) s.queue.jobs (j ∷ []) h.stuck
              ((λ e. absurd (omega (arith, h.drawn))), tt);
        unheld = h.unheld;
      })

  Step-IsAbandoned : {s t : System} → Step s t → IsAbandoned id s → IsAbandoned id t
  Step-IsAbandoned {s} (enqueue new_id user calendar kind key q j le e) h =
      enqueue-IsAbandoned s new_id user calendar kind key q j le
        (enqueue_sync-Enqueued new_id s.now user calendar kind key s.queue q j e) h
  Step-IsAbandoned {s} (claim locked c e) h =
      let r = claim_sync_job-Chosen locked s.now s.queue c e in
      rw r.started (claim-IsAbandoned s locked c r h)
  Step-IsAbandoned {s} (complete before later c split) h =
      unfold complete_sync_job succeed_job in
      finish-IsAbandoned (succeed_job s.now) s before later c (λ j. refl) split h
  Step-IsAbandoned {s} (fail before later c error split) h =
      unfold fail_sync_job fail_job in
      finish-IsAbandoned (fail_job (c.attempt_count + 1) s.now error) s before later c (λ j. refl)
        split h
  Step-IsAbandoned {s} (crash before later c split) h = record {
    drawn = h.drawn;
    stuck = h.stuck;
    unheld = (All-without (λ d. d.id ≢ id) before later c (rw split at h.unheld)).1;
  }
  Step-IsAbandoned {s} (delete keep) h = record {
    drawn = h.drawn;
    stuck = All-retain (Runs id) keep s.queue.jobs h.stuck;
    unheld = h.unheld;
  }
  Step-IsAbandoned (tick t) h = record { drawn = h.drawn; stuck = h.stuck; unheld = h.unheld }

  Steps-IsAbandoned : {s t : System} → IsAbandoned id s → Steps s t → IsAbandoned id t
  Steps-IsAbandoned h here = h
  Steps-IsAbandoned h (next r st) = Step-IsAbandoned st (Steps-IsAbandoned h r)

-- Once the worker of a job dies, then after any further steps, however late, the job's row is still
-- running unless it is deleted, and no worker holds the job.
pub crash_strands :
    (s t : System) (before later : List ClaimedSyncJob) (c : ClaimedSyncJob)
    → IsSound s
    → s.workers ≡ before ++ (c ∷ later)
    → Steps (record s { workers = before ++ later }) t
    → IsAbandoned c.id t
crash_strands s t before later c h split =
    let (mine, _) = All-without (Holds s.queue s.next_id) before later c (rw split at h.held) in
    let (_, apart) = Exclusive-without before later c (rw split at h.exclusive) in
    Steps-IsAbandoned c.id (record {
      drawn = mine.0;
      stuck = All-imp (RunsFor c) (Runs c.id) s.queue.jobs (λ j k e. (k e).0) mine.1;
      unheld = apart;
    })
