-- ===== src/Recovery/Expiry.antt =====
-- What the recovery does to an expired attempt and its job, with the scheduler's RetryExecution.
use lecrev.Prelude.{
  ◌≡◌, ◌||◌, true, false, some, arith, eq_refl, ltb, leb, if◌then◌else◌, Bool-cases, inl, inr, refl,
}
use lecrev.Maps.{get, put, get-put}
use lecrev.Errors.{ok}
use lecrev.Domain.{Attempt, ExecutionJob, JobState, Time, terminal}
use lecrev.Store.Backend.{World, memory}
use lecrev.Scheduler.{Service}
use lecrev.Scheduler.Admission.{retry_execution}
use lecrev.Scheduler.Admission.Quota.{with_memory}
use lecrev.Recovery.{recover_attempt, expired_attempt, ended}

module _ {W : Type 0} (svc : Service (World W)) where
  -- An attempt and its job that are stored under their ids: if the attempt is still open when its
  -- lease is over, it is stored as failed, and the job as retrying while it has attempts left and
  -- as failed otherwise; the recovery itself succeeds.
  pub recover-expired :
      (attempt latest : Attempt) (job : ExecutionJob) (now later : Time) (w : World W)
      → get w.store.execution_jobs attempt.job_id ≡ some job
      → job.id ≡ attempt.job_id
      → get w.store.attempts attempt.id ≡ some latest
      → latest.id ≡ attempt.id
      → (terminal latest.state || ltb now latest.lease_expires_at) ≡ false
      → let r =
          recover_attempt memory
            (λ id. retry_execution (with_memory svc) id later)
            attempt
            now
            later
            w in
        (r.0 ≡ ok tt)
        × (get r.1.store.attempts attempt.id ≡ some (expired_attempt latest now))
        × ((after : ExecutionJob) × (get r.1.store.execution_jobs attempt.job_id ≡ some after)
            × (after.state ≡ (
                if leb job.attempt_count job.max_retries
                then JobState.retrying
                else JobState.failed))
            × (after.attempt_count ≡ job.attempt_count))
  unfolding recover_attempt memory retry_execution
  recover-expired attempt latest job now later w g gi h hi o =
      elim (Bool-cases (leb job.attempt_count job.max_retries)) [
        | inl t ↦
            let retrying : ExecutionJob = ended job JobState.retrying now in
            let m = put w.store.execution_jobs job.id retrying in
            let after : ExecutionJob = record retrying {
              error = "";
              target_region = "";
              updated_at = later;
            } in
            (
              ground (
                arith,
                g,
                gi,
                h,
                hi,
                o,
                t,
                eq_refl job.id,
                get-put w.store.execution_jobs job.id job.id retrying,
              ),
              ground (
                arith,
                g,
                gi,
                h,
                hi,
                o,
                t,
                eq_refl attempt.id,
                eq_refl job.id,
                get-put w.store.execution_jobs job.id job.id retrying,
                get-put w.store.attempts attempt.id attempt.id (expired_attempt latest now),
              ),
              (
                after,
                ground (
                  arith,
                  g,
                  gi,
                  h,
                  hi,
                  o,
                  t,
                  eq_refl job.id,
                  get-put w.store.execution_jobs job.id job.id retrying,
                  get-put m job.id job.id after,
                ),
                ground (arith, t),
                refl,
              ),
            )
        | inr t ↦ (
          ground (arith, g, gi, h, hi, o, t),
          ground (
            arith,
            g,
            gi,
            h,
            hi,
            o,
            t,
            eq_refl attempt.id,
            get-put w.store.attempts attempt.id attempt.id (expired_attempt latest now),
          ),
          (
            ended job JobState.failed now,
            ground (
              arith,
              g,
              gi,
              h,
              hi,
              o,
              t,
              eq_refl job.id,
              get-put w.store.execution_jobs job.id job.id (ended job JobState.failed now),
            ),
            ground (arith, t),
            refl,
          ),
        )
      ]

  -- A stored attempt of a stored job that has ended, or whose lease still runs, is left alone with
  -- its job.
  recover-live :
      (attempt latest : Attempt) (job : ExecutionJob) (now later : Time) (w : World W)
      → get w.store.execution_jobs attempt.job_id ≡ some job
      → get w.store.attempts attempt.id ≡ some latest
      → (terminal latest.state || ltb now latest.lease_expires_at) ≡ true
      → recover_attempt memory
          (λ id. retry_execution (with_memory svc) id later)
          attempt
          now
          later
          w
        ≡ (ok tt, w)
  unfolding recover_attempt memory
  recover-live attempt latest job now later w g h o = ground (arith, g, h, o)
