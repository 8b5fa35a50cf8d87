-- ===== src/Jobs/Claim.antt =====
-- `claim_sync_job`: which job a worker gets.
use prosepect.Base.{
  ℕ, ◌≡◌, refl, subst, inl, inr, Option, none, some, Bool, true, false, List, [], ◌∷◌, arith,
  Bool-cases, Option-cases, All, any, retain, update_where,
}
use prosepect.Jobs.{
  SyncJob, ClaimedSyncJob, Queue, has_id, is_claimable, comes_before, first_job, start_job,
  claimed_of, claim_sync_job, earlier, claim_first,
}

earlier-keeps :
    (P : SyncJob → Type 0) (j : SyncJob) (o : Option SyncJob)
    → P j
    → ((m : SyncJob) → o ≡ some m → P m)
    → P (earlier j o)
earlier-keeps P j none h rest = h
earlier-keeps P j (some m) h rest = elim (Bool-cases (comes_before m j)) [
  | inl e ↦ rw e (rest m refl)
  | inr e ↦ rw e h
]

-- What `LIMIT 1` returns is one of the rows.
pub first_job-All :
    (P : SyncJob → Type 0) (js : List SyncJob) (j : SyncJob)
    → All P js
    → first_job js ≡ some j
    → P j
first_job-All P [] j h e = absurd (unfold first_job in cc e)
first_job-All P (k ∷ ks) j h e =
    let same : earlier k (first_job ks) ≡ j = unfold first_job in cc e in
    rw same at (earlier-keeps P k (first_job ks) h.0 (λ m found. first_job-All P ks m h.1 found))

pub All-tested :
    (P : SyncJob → Type 0) (p : SyncJob → Bool) (js : List SyncJob)
    → All P js
    → All (λ j. P j × (p j ≡ true)) (retain p js)
All-tested P p [] h = tt
All-tested P p (j ∷ js) h = elim (Bool-cases (p j)) [
  | inl e ↦ rw e ((h.0, e), All-tested P p js h.1)
  | inr e ↦ rw e (All-tested P p js h.1)
]

not_before_trans :
    (x m j : SyncJob)
    → comes_before x m ≡ false
    → comes_before m j ≡ false
    → comes_before x j ≡ false
unfolding comes_before
not_before_trans x m j h k = ground arith

before_asym : (m j : SyncJob) → comes_before m j ≡ true → comes_before j m ≡ false
unfolding comes_before
before_asym m j h = ground arith

not_before_self : (j : SyncJob) → comes_before j j ≡ false
unfolding comes_before
not_before_self j = ground arith

All-not_before :
    (m j : SyncJob) (js : List SyncJob)
    → comes_before m j ≡ false
    → All (λ x. comes_before x m ≡ false) js
    → All (λ x. comes_before x j ≡ false) js
All-not_before m j [] h k = tt
All-not_before m j (x ∷ js) h k = (not_before_trans x m j k.0 h, All-not_before m j js h k.1)

abbrev pub NoneBefore : List SyncJob → SyncJob → Type 0
NoneBefore js j = All (λ x. comes_before x j ≡ false) js

earlier-first :
    (j : SyncJob) (js : List SyncJob) (o : Option SyncJob)
    → o ≡ first_job js
    → ((m : SyncJob) → o ≡ some m → NoneBefore js m)
    → NoneBefore (j ∷ js) (earlier j o)
earlier-first j [] none e rest = (not_before_self j, tt)
earlier-first j (k ∷ js) none e rest = absurd (unfold first_job in cc e)
earlier-first j js (some m) e rest = elim (Bool-cases (comes_before m j)) [
  | inl b ↦
      let other : m ≡ earlier j (some m) = rw b in
      subst (NoneBefore (j ∷ js)) other (before_asym m j b, rest m refl)
  | inr b ↦
      let own : j ≡ earlier j (some m) = rw b in
      subst (NoneBefore (j ∷ js)) own (not_before_self j, All-not_before m j js b (rest m refl))
]

-- and no row comes before it.
pub first_job_first : (js : List SyncJob) (j : SyncJob) → first_job js ≡ some j → NoneBefore js j
first_job_first [] j e = tt
first_job_first (k ∷ ks) j e =
    let same : earlier k (first_job ks) ≡ j = unfold first_job in cc e in
    subst (NoneBefore (k ∷ ks)) same
      (earlier-first k ks (first_job ks) refl (λ m found. first_job_first ks m found))

All-retained :
    (P : SyncJob → Type 0) (p : SyncJob → Bool) (js : List SyncJob)
    → All P (retain p js)
    → All (λ j. p j ≡ true → P j) js
All-retained P p [] h = tt
All-retained P p (j ∷ js) h = elim (Bool-cases (p j)) [
  | inl e ↦ let kept = rw e at h in ((λ _. kept.0), All-retained P p js kept.1)
  | inr e ↦ ((λ t. absurd (cc)), All-retained P p js (rw e at h))
]

pub claim_lem :
    (locked : ℕ → Bool) (now : ℕ) (q : Queue)
    → claim_sync_job locked now q
      ≡ claim_first now (first_job (retain (is_claimable locked now) q.jobs)) q
claim_lem locked now q = unfold claim_sync_job in refl

-- The job that a claim returns, as it stood: a row of the table that meets the conditions of the
-- query, before which no other such row comes. The claim starts this job and changes nothing else.
pub record Chosen (locked : ℕ → Bool) (now : ℕ) (q : Queue) (c : ClaimedSyncJob) : Type 1 where
  pub job : SyncJob
  pub claimed : c ≡ claimed_of job
  pub claimable : is_claimable locked now job ≡ true
  pub member : (P : SyncJob → Type 0) → All P q.jobs → P job
  pub first : All (λ x. is_claimable locked now x ≡ true → comes_before x job ≡ false) q.jobs
  pub started :
      (claim_sync_job locked now q).0
      ≡ record q { jobs = update_where (has_id job.id) (start_job now) q.jobs }

module _ (locked : ℕ → Bool) (now : ℕ) (q : Queue) where
  abbrev candidates : List SyncJob
  candidates = retain (is_claimable locked now) q.jobs

  Chosen-first_job :
      (j : SyncJob) (c : ClaimedSyncJob)
      → first_job candidates ≡ some j
      → (claim_sync_job locked now q).1 ≡ some c
      → Chosen locked now q c
  Chosen-first_job j c found e = record {
    job = j;
    claimed = cc (rw (claim_lem, found) at e);
    claimable =
        (first_job-All (λ x. Unit × (is_claimable locked now x ≡ true)) candidates j
          (All-tested (λ x. Unit) (is_claimable locked now) q.jobs (All-unit q.jobs)) found).1;
    member = λ P h.
        (first_job-All (λ x. P x × (is_claimable locked now x ≡ true)) candidates j
          (All-tested P (is_claimable locked now) q.jobs h) found).0;
    first =
        All-retained (λ x. comes_before x j ≡ false) (is_claimable locked now) q.jobs
          (first_job_first candidates j found);
    started = rw (claim_lem, found);
  }
    where
      All-unit : (js : List SyncJob) → All (λ x. Unit {0}) js
      All-unit [] = tt
      All-unit (x ∷ js) = (tt, All-unit js)

  -- A job that a claim returns is waiting, due, unleased, unlocked and below eight attempts; no such
  -- job is due before it; and the claim starts this job alone.
  pub claim_sync_job-Chosen :
      (c : ClaimedSyncJob) → (claim_sync_job locked now q).1 ≡ some c → Chosen locked now q c
  claim_sync_job-Chosen c e = elim (Option-cases (first_job candidates)) [
    | inl nothing ↦ absurd (cc (rw (claim_lem, nothing) at e))
    | inr (j, found) ↦ Chosen-first_job j c found e
  ]

  first_job_some : (js : List SyncJob) → first_job js ≡ none → js ≡ []
  first_job_some [] e = refl
  first_job_some (j ∷ js) e = absurd (unfold first_job in cc e)

  any-retain : (p : SyncJob → Bool) (js : List SyncJob) → retain p js ≡ [] → any p js ≡ false
  any-retain p [] e = refl
  any-retain p (j ∷ js) e = elim (Bool-cases (p j)) [
    | inl t ↦ absurd (cc (rw t at e))
    | inr f ↦ rw f (any-retain p js (rw f at e))
  ]

  -- A claim comes back empty only if no job meets the conditions.
  pub claim_sync_job_live :
      any (is_claimable locked now) q.jobs ≡ true
      → (c : ClaimedSyncJob) × ((claim_sync_job locked now q).1 ≡ some c)
  claim_sync_job_live h = elim (Option-cases (first_job candidates)) [
    | inl nothing ↦
        absurd
          (cc (any-retain (is_claimable locked now) q.jobs (first_job_some candidates nothing)))
    | inr (j, found) ↦ (claimed_of j, rw (claim_lem, found))
  ]
