-- ===== src/Jobs/Examples.antt =====
-- Concrete runs of the queue.
use prosepect.Base.{
  ◌≡◌, refl, ◌+◌, ◌*◌, ◌^◌, [], ◌∷◌, arith, codes, none, some, true, false, any, ◌&&◌, leb, ltb,
}
use prosepect.Error.{ok}
use prosepect.Jobs.{
  SyncJob, ClaimedSyncJob, Queue, pending, second, enqueue_sync, claim_sync_job, is_claimable,
  claimed_of, fail_job, max_attempts, complete_sync_job, succeed_job,
}
use prosepect.Jobs.Claim.{Chosen, claim_sync_job-Chosen, claim_sync_job_live}
use prosepect.Jobs.Enqueue.{Enqueued, enqueue_sync-Enqueued, enqueue_sync_again}
use prosepect.Jobs.Backoff.{fail_job-is_claimable}
use prosepect.Jobs.Run.{run_once, run_once-Settled, done, Settled, cleanup_task_delete_undos}
use prosepect.Jobs.Workers.{System, Steps, here, next, start, enqueue, claim, tick}
use prosepect.Jobs.Workers.Exclusion.{IsSound, UniqueIds, UniqueIds-update}
use prosepect.Jobs.Workers.Sound.{Steps-IsSound}
use prosepect.Jobs.Workers.Stale.{IsAbandoned, crash_strands}

abbrev job : SyncJob
job = record {
  id = 0;
  user_id = 7;
  calendar_id = none;
  kind = "calendar_sync";
  idempotency_key = codes "k";
  status = pending;
  attempt_count = 0;
  available_at = 0;
  leased_until = none;
  last_error = none;
  created_at = 0;
  updated_at = 0;
}

abbrev empty : Queue
empty = record { calendars = []; jobs = []; activity = []; task_delete_undos = [] }

abbrev queued : Queue
queued = record empty { jobs = job ∷ [] }

enqueued : enqueue_sync 0 0 7 none "calendar_sync" (codes " k ") empty ≡ ok (queued, job)
unfolding enqueue_sync
enqueued = refl

enqueue_sync-Enqueued_example : Enqueued 0 0 7 none "calendar_sync" (codes " k ") empty queued job
enqueue_sync-Enqueued_example =
    enqueue_sync-Enqueued 0 0 7 none "calendar_sync" (codes " k ") empty queued job enqueued

enqueue_sync_again_example :
    enqueue_sync 1 5 7 none "calendar_sync" (codes " k ") queued ≡ ok (queued, job)
enqueue_sync_again_example =
    enqueue_sync_again 0 0 7 none "calendar_sync" (codes " k ") empty queued job 1 5 enqueued

claimed : (claim_sync_job (λ id. false) 0 queued).1 ≡ some (claimed_of job)
unfolding claim_sync_job
claimed = refl

claim_sync_job-Chosen_example : Chosen (λ id. false) 0 queued (claimed_of job)
claim_sync_job-Chosen_example =
    claim_sync_job-Chosen (λ id. false) 0 queued (claimed_of job) claimed

is_due : any (is_claimable (λ id. false) 0) queued.jobs ≡ true
unfolding is_claimable
is_due = refl

claim_sync_job_live_example :
    (c : ClaimedSyncJob) × ((claim_sync_job (λ id. false) 0 queued).1 ≡ some c)
claim_sync_job_live_example = claim_sync_job_live (λ id. false) 0 queued is_due

fail_job-is_claimable_example :
    is_claimable
      (λ id. false)
      9_000_000
      (fail_job 3 0 (codes "quota") (record job { attempt_count = 3 }))
    ≡ (leb (0 + 2 ^ 3 * second) 9_000_000 && ltb 3 max_attempts)
fail_job-is_claimable_example =
    fail_job-is_claimable (record job { attempt_count = 3 }) 3 0 9_000_000 (codes "quota")
      (omega arith) (omega arith) refl

-- Two jobs, of which another worker completes the second while this one waits.
abbrev two_jobs : Queue
two_jobs = record empty { jobs = job ∷ record job { id = 1 } ∷ [] }

keeps_unique : (q : Queue) → UniqueIds q.jobs → UniqueIds (complete_sync_job 1 0 q).jobs
unfolding complete_sync_job
keeps_unique q unique =
    UniqueIds-update 1 (succeed_job 0) q.jobs (λ j. unfold succeed_job in refl) unique

claimed_after_cleanup :
    (claim_sync_job (λ id. false) 0 (cleanup_task_delete_undos 0 two_jobs)).1
    ≡ some (claimed_of job)
unfolding claim_sync_job cleanup_task_delete_undos
claimed_after_cleanup = refl

run_once-Settled_example :
    Settled 0
      (run_once (λ id. false) (complete_sync_job 1 0) (λ c q. (q, done)) 0 1 two_jobs).0.jobs
    × ((run_once (λ id. false) (complete_sync_job 1 0) (λ c q. (q, done)) 0 1 two_jobs).1 ≡ true)
run_once-Settled_example =
    run_once-Settled (λ id. false) (complete_sync_job 1 0) (λ c q. (q, done)) 0 1 two_jobs
      (claimed_of job) keeps_unique (((λ same. ground arith), tt), (tt, tt)) claimed_after_cleanup

-- A job is queued and claimed, and the worker dies.
abbrev loaded : System
loaded = record (start []) { queue = queued; next_id = 1 }

abbrev busy : System
busy = record loaded {
  queue = (claim_sync_job (λ id. false) 0 queued).0;
  workers = claimed_of job ∷ [];
}

reach_busy : Steps (start []) busy
reach_busy =
    next
      (next here (enqueue 0 7 none "calendar_sync" (codes " k ") queued job (omega arith) enqueued))
      (claim (λ id. false) (claimed_of job) claimed)

Steps-IsSound_example : IsSound busy
Steps-IsSound_example = Steps-IsSound [] reach_busy

crash_strands_example : IsAbandoned 0 (record busy { workers = []; now = 1_000 * second })
crash_strands_example =
    crash_strands busy (record busy { workers = []; now = 1_000 * second }) [] [] (claimed_of job)
      (Steps-IsSound [] reach_busy) refl (next here (tick (1_000 * second)))
