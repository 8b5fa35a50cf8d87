-- ===== src/Jobs/Workers.antt =====
-- Several workers at one queue, as interleavings of the queue's operations. The identifiers of
-- jobs are numbered in the order in which they are drawn: no identifier is drawn twice.
pub mod Exclusion
pub mod Sound
pub mod Stale
use prosepect.Base.{
  ℕ, suc, ◌+◌, ◌≤◌, ◌≡◌, Option, none, some, Bool, List, [], ◌∷◌, ◌++◌, String, Text, retain,
}
use prosepect.Error.{AppResult, ok}
use prosepect.Jobs.{
  SyncJob, ClaimedSyncJob, Queue, enqueue_sync, claim_sync_job, complete_sync_job, fail_sync_job,
}

pub record System : Type 0 where
  pub queue : Queue
  -- The claims that live workers hold.
  pub workers : List ClaimedSyncJob
  pub now : ℕ
  -- The identifiers from here on are not drawn yet.
  pub next_id : ℕ

pub data Step (s : System) : System → Type 0 where
  -- A request, a change of an event, or the periodic work puts a job into the queue.
  enqueue :
      (id user : ℕ) (calendar : Option ℕ) (kind : String) (key : Text) (q : Queue) (j : SyncJob)
      → s.next_id ≤ id
      → enqueue_sync id s.now user calendar kind key s.queue ≡ ok (q, j)
      → Step s (record s { queue = q; next_id = suc id })
  claim :
      (locked : ℕ → Bool) (c : ClaimedSyncJob)
      → (claim_sync_job locked s.now s.queue).1 ≡ some c
      → Step s
          (record s { queue = (claim_sync_job locked s.now s.queue).0; workers = c ∷ s.workers })
  complete :
      (before later : List ClaimedSyncJob) (c : ClaimedSyncJob)
      → s.workers ≡ before ++ (c ∷ later)
      → Step s
          (record s { queue = complete_sync_job c.id s.now s.queue; workers = before ++ later })
  -- `run_once` reports the number of this attempt, one more than the claim read.
  fail :
      (before later : List ClaimedSyncJob) (c : ClaimedSyncJob) (error : Text)
      → s.workers ≡ before ++ (c ∷ later)
      → Step s (record s {
        queue = fail_sync_job c.id (c.attempt_count + 1) s.now error s.queue;
        workers = before ++ later;
      })
  -- The worker's process dies.
  crash :
      (before later : List ClaimedSyncJob) (c : ClaimedSyncJob)
      → s.workers ≡ before ++ (c ∷ later)
      → Step s (record s { workers = before ++ later })
  -- The rows of a deleted account or calendar go with it.
  delete :
      (keep : SyncJob → Bool)
      → Step s (record s { queue = record s.queue { jobs = retain keep s.queue.jobs } })
  tick : (t : ℕ) → Step s (record s { now = s.now + t })

pub data Steps (s : System) : System → Type 0 where
  here : Steps s s
  next : {t u : System} → Steps s t → Step t u → Steps s u

-- No job and no worker.
abbrev pub start : List (ℕ × ℕ) → System
start calendars = record {
  queue = record { calendars = calendars; jobs = []; activity = []; task_delete_undos = [] };
  workers = [];
  now = 0;
  next_id = 0;
}
