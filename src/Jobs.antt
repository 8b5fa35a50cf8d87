-- ===== src/Jobs.antt =====
-- apps/api/src/sync_store.rs and apps/api/src/sync_service.rs: the durable queue of
-- synchronization jobs and one run of its worker. An instant is a number of microseconds.
pub mod Claim
pub mod Enqueue
pub mod Workers
pub mod Run
pub mod Backoff
mod Examples
use text.Mathlib.Text.{◌==◌ as str_eq}
use prosepect.Base.{
  ℕ, zero, suc, ◌+◌, ◌*◌, ◌^◌, ◌≡◌, min, String, Option, none, some, Bool, true, false, not, ◌&&◌,
  ◌||◌, List, [], ◌∷◌, ◌++◌, ltb, leb, ◌==◌, if◌then◌else◌, option_test, nat_eq, Text, trim,
  is_empty, text_eq, length, any, find?, retain, update_where,
}
use prosepect.Error.{
  AppError, AppResult, ok, err, validation, not_found, literal, constraint_violation, fail_if,
  ◌>>=◌, ◌>>◌,
}

pub data JobStatus : Type 0 where
  pending running succeeded failed : JobStatus

pub record SyncJob : Type 0 where
  pub id : ℕ
  pub user_id : ℕ
  pub calendar_id : Option ℕ
  pub kind : String
  pub idempotency_key : Text
  pub status : JobStatus
  pub attempt_count : ℕ
  pub available_at : ℕ
  pub leased_until : Option ℕ
  pub last_error : Option Text
  pub created_at : ℕ
  pub updated_at : ℕ

-- What a claim hands to the worker.
pub record ClaimedSyncJob : Type 0 where
  pub id : ℕ
  pub user_id : ℕ
  pub calendar_id : Option ℕ
  pub kind : String
  pub attempt_count : ℕ

pub record ActivityEntry : Type 0 where
  pub user_id : ℕ
  pub kind : String
  pub message : String

-- The tables that the queue reads and writes. A calendar is its identifier and its owner, and an
-- undo receipt the instant at which it expires; the receipts stand in that order.
pub record Queue : Type 0 where
  pub calendars : List (ℕ × ℕ)
  pub jobs : List SyncJob
  pub activity : List ActivityEntry
  pub task_delete_undos : List ℕ

abbrev pub second : ℕ
second = 1_000_000

abbrev pub max_attempts : ℕ
max_attempts = 8

abbrev pub is_running : JobStatus → Bool
is_running running = true
is_running _ = false

-- `status IN ('pending', 'failed')`
abbrev pub is_waiting : JobStatus → Bool
is_waiting pending = true
is_waiting failed = true
is_waiting _ = false

-- The CHECK constraint on `sync_jobs.kind`.
unfoldable pub is_kind : String → Bool
is_kind kind =
    str_eq kind "calendar_sync"
    || str_eq kind "calendar_discovery"
    || str_eq kind "calendar_watch"
    || str_eq kind "credential_revoke"
    || str_eq kind "tasks_sync"

abbrev pub has_calendar : ℕ → Option ℕ → List (ℕ × ℕ) → Bool
has_calendar user none calendars = true
has_calendar user (some c) calendars = any (λ (i, owner). i == c && owner == user) calendars

abbrev pub is_same_request : ℕ → Text → SyncJob → Bool
is_same_request user key j = j.user_id == user && text_eq j.idempotency_key key

abbrev pub has_id : ℕ → SyncJob → Bool
has_id id j = j.id == id

unfoldable pub new_job : ℕ → ℕ → ℕ → Option ℕ → String → Text → SyncJob
new_job id now user calendar kind key = record {
  id = id;
  user_id = user;
  calendar_id = calendar;
  kind = kind;
  idempotency_key = key;
  status = pending;
  attempt_count = 0;
  available_at = now;
  leased_until = none;
  last_error = none;
  created_at = now;
  updated_at = now;
}

abbrev pub insert_or_existing :
    Option SyncJob → Bool → SyncJob → Queue → AppResult (Queue × SyncJob)
insert_or_existing (some existing) taken job q = ok (q, existing)
insert_or_existing none true job q = err (constraint_violation "23505" "sync_jobs_pkey")
insert_or_existing none false job q = ok (record q { jobs = q.jobs ++ job ∷ [] }, job)

abbrev pub is_bad_key : Text → Bool
is_bad_key key = is_empty (trim key) || ltb 200 (length key)

abbrev pub key_error : AppError
key_error = validation (literal "idempotency key must contain between 1 and 200 characters")

abbrev pub kind_error : AppError
kind_error = constraint_violation "23514" "sync_jobs_kind_check"

-- `enqueue_sync`, with the identifier and the instant that it draws. The request of a key that is
-- there already returns the job that has it.
unfoldable pub enqueue_sync :
    ℕ → ℕ → ℕ → Option ℕ → String → Text → Queue → AppResult (Queue × SyncJob)
unfolding trim new_job is_kind
enqueue_sync id now user calendar kind key q = do
  fail_if (is_bad_key key) key_error
  fail_if (not (has_calendar user calendar q.calendars)) (not_found "calendar")
  fail_if (not (is_kind kind)) kind_error
  insert_or_existing (find? (is_same_request user (trim key)) q.jobs) (any (has_id id) q.jobs)
      (new_job id now user calendar kind (trim key)) q

-- `(leased_until IS NULL OR leased_until < NOW())`
abbrev pub lease_is_over : ℕ → Option ℕ → Bool
lease_is_over now none = true
lease_is_over now (some until) = ltb until now

-- The WHERE clause of `claim_sync_job`; SKIP LOCKED passes over rows that another transaction holds.
unfoldable pub is_claimable : (ℕ → Bool) → ℕ → SyncJob → Bool
is_claimable locked now j =
    is_waiting j.status
    && leb j.available_at now
    && lease_is_over now j.leased_until
    && ltb j.attempt_count max_attempts
    && not (locked j.id)

-- `ORDER BY available_at, created_at`
unfoldable pub comes_before : SyncJob → SyncJob → Bool
comes_before a b =
    ltb a.available_at b.available_at
    || (a.available_at == b.available_at && ltb a.created_at b.created_at)

abbrev pub earlier : SyncJob → Option SyncJob → SyncJob
earlier j none = j
earlier j (some k) = if comes_before k j then k else j

-- `LIMIT 1`
unfoldable pub first_job : List SyncJob → Option SyncJob
first_job [] = none
first_job (j ∷ js) = some (earlier j (first_job js))

unfoldable pub start_job : ℕ → SyncJob → SyncJob
start_job now j = record j {
  status = running;
  attempt_count = j.attempt_count + 1;
  leased_until = some (now + 120 * second);
  updated_at = now;
}

abbrev pub claimed_of : SyncJob → ClaimedSyncJob
claimed_of j = record {
  id = j.id;
  user_id = j.user_id;
  calendar_id = j.calendar_id;
  kind = j.kind;
  attempt_count = j.attempt_count;
}

abbrev pub claim_first : ℕ → Option SyncJob → Queue → Queue × Option ClaimedSyncJob
claim_first now none q = (q, none)
claim_first now (some j) q =
    (record q { jobs = update_where (has_id j.id) (start_job now) q.jobs }, some (claimed_of j))

unfoldable pub claim_sync_job : (ℕ → Bool) → ℕ → Queue → Queue × Option ClaimedSyncJob
unfolding first_job start_job comes_before is_claimable
claim_sync_job locked now q =
    claim_first now (first_job (retain (is_claimable locked now) q.jobs)) q

unfoldable pub succeed_job : ℕ → SyncJob → SyncJob
succeed_job now j = record j {
  status = succeeded;
  leased_until = none;
  last_error = none;
  updated_at = now;
}

unfoldable pub complete_sync_job : ℕ → ℕ → Queue → Queue
unfolding succeed_job
complete_sync_job job_id now q = record q {
  jobs = update_where (has_id job_id) (succeed_job now) q.jobs;
}

-- `attempt_count.clamp(1, 8)`
unfoldable pub clamp_attempts : ℕ → ℕ
clamp_attempts n = if ltb n 1 then 1 else if ltb 8 n then 8 else n

unfoldable pub delay_seconds : ℕ → ℕ
unfolding clamp_attempts
delay_seconds attempt_count = min (2 ^ clamp_attempts attempt_count) 300

abbrev pub left : ℕ → Text → Text
left zero s = []
left (suc n) [] = []
left (suc n) (c ∷ s) = c ∷ left n s

unfoldable pub fail_job : ℕ → ℕ → Text → SyncJob → SyncJob
unfolding delay_seconds
fail_job attempt_count now error j = record j {
  status = failed;
  leased_until = none;
  available_at = now + delay_seconds attempt_count * second;
  last_error = some (left 2000 error);
  updated_at = now;
}

unfoldable pub fail_sync_job : ℕ → ℕ → ℕ → Text → Queue → Queue
unfolding fail_job
fail_sync_job job_id attempt_count now error q = record q {
  jobs = update_where (has_id job_id) (fail_job attempt_count now error) q.jobs;
}
