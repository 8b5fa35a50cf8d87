-- ===== src/Jobs/Enqueue.antt =====
-- `enqueue_sync`: what it adds to the queue, and that it adds a request once.
use prosepect.Base.{
  ℕ, ◌≡◌, refl, inl, inr, Option, none, some, Bool, true, false, String, Text, List, [], ◌∷◌, ◌++◌,
  Bool-cases, find?, any, trim, not, text_eq_refl, ==_refl,
}
use prosepect.Error.{ok, ◌>>◌, fail_if, fail_if-eq-ok, not_found}
use prosepect.Jobs.{
  SyncJob, Queue, enqueue_sync, new_job, insert_or_existing, is_same_request, has_id, has_calendar,
  is_kind, is_bad_key, key_error, kind_error,
}

-- The two ways in which a request succeeds.
pub data Enqueued (id now user : ℕ) (calendar : Option ℕ) (kind : String) (key : Text) (q : Queue)
    (q' : Queue) (j : SyncJob) : Type 0 where
  repeated :
      q' ≡ q
      → find? (is_same_request user (trim key)) q.jobs ≡ some j
      → Enqueued id now user calendar kind key q q' j
  added :
      find? (is_same_request user (trim key)) q.jobs ≡ none
      → any (has_id id) q.jobs ≡ false
      → j ≡ new_job id now user calendar kind (trim key)
      → q' ≡ record q { jobs = q.jobs ++ j ∷ [] }
      → Enqueued id now user calendar kind key q q' j

insert-Enqueued :
    (id now user : ℕ) (calendar : Option ℕ) (kind : String) (key : Text) (q q' : Queue)
    (j : SyncJob) (found : Option SyncJob) (taken : Bool)
    → find? (is_same_request user (trim key)) q.jobs ≡ found
    → any (has_id id) q.jobs ≡ taken
    → insert_or_existing found taken (new_job id now user calendar kind (trim key)) q ≡ ok (q', j)
    → Enqueued id now user calendar kind key q q' j
insert-Enqueued id now user calendar kind key q q' j (some k) taken e f h = repeated (cc) (cc)
insert-Enqueued id now user calendar kind key q q' j none true e f h = absurd (cc)
insert-Enqueued id now user calendar kind key q q' j none false e f h = added e f (cc) (cc)

enqueue_lem :
    (id now user : ℕ) (calendar : Option ℕ) (kind : String) (key : Text) (q : Queue)
    → enqueue_sync id now user calendar kind key q ≡ (do
      fail_if (is_bad_key key) key_error
      fail_if (not (has_calendar user calendar q.calendars)) (not_found "calendar")
      fail_if (not (is_kind kind)) kind_error
      insert_or_existing
          (find? (is_same_request user (trim key)) q.jobs)
          (any (has_id id) q.jobs)
          (new_job id now user calendar kind (trim key))
          q)
enqueue_lem id now user calendar kind key q = unfold enqueue_sync in refl

-- A request that succeeds returns the job that has the user's key already and leaves the queue as
-- it was, or appends one pending job under an identifier that was free.
pub enqueue_sync-Enqueued :
    (id now user : ℕ) (calendar : Option ℕ) (kind : String) (key : Text) (q q' : Queue)
    (j : SyncJob)
    → enqueue_sync id now user calendar kind key q ≡ ok (q', j)
    → Enqueued id now user calendar kind key q q' j
enqueue_sync-Enqueued id now user calendar kind key q q' j h =
    let (_, h1) = fail_if-eq-ok (is_bad_key key) key_error _ (rw enqueue_lem at h) in
    let (_, h2) =
      fail_if-eq-ok (not (has_calendar user calendar q.calendars)) (not_found "calendar") _ h1 in
    let (_, h3) = fail_if-eq-ok (not (is_kind kind)) kind_error _ h2 in
    insert-Enqueued id now user calendar kind key q q' j _ _ refl refl h3

find?-append :
    (p : SyncJob → Bool) (js : List SyncJob) (j : SyncJob)
    → find? p js ≡ none
    → p j ≡ true
    → find? p (js ++ j ∷ []) ≡ some j
find?-append p [] j e t = rw t
find?-append p (k ∷ js) j e t = elim (Bool-cases (p k)) [
  | inl hit ↦ absurd (cc (rw hit at e))
  | inr miss ↦ rw miss (find?-append p js j (rw miss at e) t)
]

new_job-is_same_request :
    (id now user : ℕ) (calendar : Option ℕ) (kind : String) (key : Text)
    → is_same_request user key (new_job id now user calendar kind key) ≡ true
unfolding new_job
new_job-is_same_request id now user calendar kind key = rw (==_refl user, text_eq_refl key)

module _ {id now user : ℕ} {calendar : Option ℕ} {kind : String} {key : Text} {q q' : Queue}
    {j : SyncJob} where
  -- After the request the job is found by its key, among the same calendars.
  Enqueued-found :
      Enqueued id now user calendar kind key q q' j
      → (find? (is_same_request user (trim key)) q'.jobs ≡ some j) × (q'.calendars ≡ q.calendars)
  Enqueued-found (repeated same found) = (rw same found, rw same)
  Enqueued-found (added missing free is_new result) = (
    rw result (
        find?-append (is_same_request user (trim key)) q.jobs j missing
          (rw is_new (new_job-is_same_request id now user calendar kind (trim key)))),
    rw result,
  )

-- A request that succeeded, made again under any fresh identifier, returns the same job and leaves
-- the queue as it is.
pub enqueue_sync_again :
    (id now user : ℕ) (calendar : Option ℕ) (kind : String) (key : Text) (q q' : Queue)
    (j : SyncJob) (id' later : ℕ)
    → enqueue_sync id now user calendar kind key q ≡ ok (q', j)
    → enqueue_sync id' later user calendar kind key q' ≡ ok (q', j)
enqueue_sync_again id now user calendar kind key q q' j id' later h =
    let (good, h1) = fail_if-eq-ok (is_bad_key key) key_error _ (rw enqueue_lem at h) in
    let (there, h2) =
      fail_if-eq-ok (not (has_calendar user calendar q.calendars)) (not_found "calendar") _ h1 in
    let (known, h3) = fail_if-eq-ok (not (is_kind kind)) kind_error _ h2 in
    let (found, calendars) =
      Enqueued-found (enqueue_sync-Enqueued id now user calendar kind key q q' j h) in
    rw (enqueue_lem, good, calendars, there, known, found)
