-- ===== src/Jobs/Backoff.antt =====
-- The delay before a failed job is tried again.
use prosepect.Base.{ℕ, zero, suc, ◌+◌, ◌*◌, ◌^◌, ◌≤◌, ◌≡◌, refl, false, arith, ltb, leb, ◌&&◌, Text}
use prosepect.Jobs.{SyncJob, second, delay_seconds, fail_job, is_claimable, max_attempts}

-- After the n-th attempt, n from 1 to 8, the delay is 2 ^ n seconds: the cap of 300 seconds is not
-- met.
pub delay_seconds_exact : (n : ℕ) → 1 ≤ n → n ≤ max_attempts → delay_seconds n ≡ 2 ^ n
unfolding delay_seconds
delay_seconds_exact zero h k = absurd (omega arith)
delay_seconds_exact (suc zero) h k = refl
delay_seconds_exact (suc (suc zero)) h k = refl
delay_seconds_exact (suc (suc (suc zero))) h k = refl
delay_seconds_exact (suc (suc (suc (suc zero)))) h k = refl
delay_seconds_exact (suc (suc (suc (suc (suc zero))))) h k = refl
delay_seconds_exact (suc (suc (suc (suc (suc (suc zero)))))) h k = refl
delay_seconds_exact (suc (suc (suc (suc (suc (suc (suc zero))))))) h k = refl
delay_seconds_exact (suc (suc (suc (suc (suc (suc (suc (suc zero)))))))) h k = refl
delay_seconds_exact (suc (suc (suc (suc (suc (suc (suc (suc (suc n))))))))) h k =
    absurd (omega arith)

-- A job that failed in its n-th attempt, n from 1 to 8, can be claimed again exactly from 2 ^ n
-- seconds later on, and after the eighth attempt never.
pub fail_job-is_claimable :
    (j : SyncJob) (n now later : ℕ) (error : Text)
    → 1 ≤ n
    → n ≤ max_attempts
    → j.attempt_count ≡ n
    → is_claimable (λ id. false) later (fail_job n now error j)
      ≡ (leb (now + 2 ^ n * second) later && ltb n max_attempts)
unfolding is_claimable fail_job
fail_job-is_claimable j n now later error h k e = rw (e, ← delay_seconds_exact n h k) (ground arith)
