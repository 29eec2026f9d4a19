-- ===== src/Recovery.antt =====
-- internal/recovery/service.go: attempts whose lease ran out are failed, and their jobs retried.
pub mod Expiry
use lecrev.Prelude.{String, Bool, true, false, ◌||◌, List, [], ◌∷◌, ltb, leb, if◌then◌else◌}
use lecrev.Errors.{Result, ok, err, Exec, outcome, pure, ◌>>=◌, ◌>>◌, message}
use lecrev.Domain.{Time, Attempt, AttemptState, ExecutionJob, JobState, terminal}
use lecrev.Store.Backend.{Backend}

abbrev pub expiry_text : String
expiry_text = "lease expired before completion"

abbrev pub expired_attempt : Attempt → Time → Attempt
expired_attempt a now = record a {
  state = AttemptState.failed;
  error = expiry_text;
  lease_expires_at = now;
  updated_at = now;
}

abbrev pub ended : ExecutionJob → JobState → Time → ExecutionJob
ended job state now = record job { state = state; error = expiry_text; updated_at = now }

module _ {S : Type 0} (db : Backend S) (retry : String → Exec S ExecutionJob) where
  -- What follows the retry: its failure fails the job.
  abbrev after_retry : ExecutionJob → Time → Result ExecutionJob → Exec S (Unit {0})
  after_retry job now (ok retried) = pure tt
  after_retry job now (err e) =
      db.update_execution_job
        (record job { state = JobState.failed; error = message e; updated_at = now })

  abbrev retry_job : ExecutionJob → Time → Exec S (Unit {0})
  retry_job job later = do
    db.update_execution_job job
    answer ← outcome (retry job.id)
    after_retry job later answer

  -- The job by whether it has attempts left.
  abbrev recover_job : ExecutionJob → Time → Time → Bool → Exec S (Unit {0})
  recover_job job now later true s = retry_job (ended job JobState.retrying now) later s
  recover_job job now later false s = db.update_execution_job (ended job JobState.failed now) s

  -- The attempt by whether it has ended or its lease still runs.
  abbrev recover_open : Attempt → ExecutionJob → Time → Time → Bool → Exec S (Unit {0})
  recover_open latest job now later true s = (ok tt, s)
  recover_open latest job now later false s =
      (do
        db.update_attempt (expired_attempt latest now)
        recover_job job now later (leb job.attempt_count job.max_retries))
        s

  -- recoverAttempt: `now` is its time, `later` the time after a retry that failed.
  unfoldable pub recover_attempt : Attempt → Time → Time → Exec S (Unit {0})
  recover_attempt attempt now later = do
    job ← db.get_execution_job attempt.job_id
    latest ← db.get_attempt attempt.id
    recover_open latest job now later (terminal latest.state || ltb now latest.lease_expires_at)

  unfoldable pub recover_loop : List Attempt → Time → Time → Exec S (Unit {0})
  unfolding recover_attempt
  recover_loop [] now later = pure tt
  recover_loop (attempt ∷ attempts) now later =
      let rest = recover_loop attempts now later in
      if terminal attempt.state then rest else (recover_attempt attempt now later >> rest)

  unfoldable pub recover_expired_attempts : Time → Time → Exec S (Unit {0})
  unfolding recover_loop
  recover_expired_attempts now later = do
    expired ← db.list_expired_attempts now
    recover_loop expired now later
