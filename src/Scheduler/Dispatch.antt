-- ===== src/Scheduler/Dispatch.antt =====
-- internal/scheduler/service.go: scheduleNext and dispatchJobAttempt, which carry a queued job to
-- the region that takes it, and the loops around them.
pub mod Outcome
pub mod Round
use Prim.Native.String.{◌++◌}
use lecrev.Prelude.{
  ℕ, suc, ◌+◌, ◌-◌, String, Bool, not, true, false, List, [], ◌∷◌, ltb, ◌==◌, if◌then◌else◌,
}
use lecrev.Prelude.Text.{join}
use mathlib.Core.List.{◌++◌ as append}
use lecrev.Errors.{
  Error, Result, ok, err, Exec, pure, raise, outcome, ◌>>=◌, ◌>>◌, is_not_found,
  is_no_execution_capacity, message, other,
}
use lecrev.Domain.{
  Time, Artifact, Assignment, Attempt, AttemptState, ExecutionJob, FunctionVersion, JobState,
  StartMode,
}
use lecrev.Scheduler.State.{Service, Env}
use lecrev.Scheduler.Rank.{Candidate, rank_dispatchers}

-- 30 seconds in nanoseconds: the lease of an attempt.
abbrev pub lease : ℕ
lease = 30000000000

abbrev pub new_attempt : ExecutionJob → FunctionVersion → String → String → Time → Attempt
new_attempt job version region id now = record {
  id = id;
  job_id = job.id;
  function_version_id = version.id;
  host_id = "";
  region = region;
  state = AttemptState.assigned;
  start_mode = StartMode.unset;
  started_at = 0;
  latency_ms = 0;
  lease_expires_at = now + lease;
  error = "";
  created_at = now;
  updated_at = now;
}

abbrev pub assigned_job : ExecutionJob → String → String → Time → ExecutionJob
assigned_job job attempt_id region now = record job {
  last_attempt_id = attempt_id;
  target_region = region;
  state = JobState.assigned;
  error = "";
  updated_at = now;
}

abbrev pub queued_again : ExecutionJob → String → Time → ExecutionJob
queued_again job error now = record job {
  state = JobState.queued;
  target_region = "";
  error = error;
  updated_at = now;
}

abbrev pub failed_attempt : Attempt → Error → Time → Time → Attempt
failed_attempt a e lease_end now = record a {
  state = AttemptState.failed;
  error = message e;
  lease_expires_at = lease_end;
  updated_at = now;
}

abbrev pub assignment_for : FunctionVersion → Artifact → ExecutionJob → String → Assignment
assignment_for version artifact job attempt_id = record {
  attempt_id = attempt_id;
  job_id = job.id;
  function_version_id = version.id;
  artifact_digest = version.artifact_digest;
  artifact_bundle_key = artifact.bundle_key;
  entrypoint = version.entrypoint;
  env_vars = version.env_vars;
  env_refs = version.env_refs;
  payload = job.payload;
  network_policy = version.network_policy;
  timeout_sec = version.timeout_sec;
  memory_mb = version.memory_mb;
}

module _ {S : Type 0} (svc : Service S) where
  open svc use {db}

  -- The error of one region, as the loop collects them.
  abbrev pub region_error : String → Error → String
  region_error region e = region ++ (": " ++ message e)

  -- No capacity: the job waits in the queue for the next round.
  abbrev give_up : ExecutionJob → Error → Time → Exec S (Unit {0})
  give_up job e now = do _ ← outcome (db.update_execution_job (queued_again job "" now)); raise e

  -- `next` goes on with the other candidates.
  abbrev pub refused :
      ExecutionJob → Error → Time → (Error → Exec S (Unit {0})) → Bool → Exec S (Unit {0})
  refused job e now next true s = give_up job e now s
  refused job e now next false s = next e s

  -- What follows a region's answer to an attempt for a job; `k` counts the readings of the clock.
  abbrev pub answered :
      Attempt
      → ExecutionJob
      → ℕ
      → Env
      → (Error → Exec S (Unit {0}))
      → Result (Unit {0})
      → Exec S (Unit {0})
  answered a job k env next (ok u) s =
      db.update_execution_job
        (record job { attempt_count = job.attempt_count + 1; updated_at = env.now k }) s
  answered a job k env next (err e) s =
      (do
        _ ← outcome (db.update_attempt (failed_attempt a e (env.now k) (env.now (k + 1))))
        refused job e (env.now (k + 2)) next (is_no_execution_capacity e))
        s

  -- The loop over the candidates; `i` counts them and `k` the readings of the clock so far.
  unfoldable pub dispatch_loop :
      FunctionVersion
      → Artifact
      → List (Candidate S)
      → ExecutionJob
      → List String
      → ℕ
      → ℕ
      → Env
      → Exec S (Unit {0})
  dispatch_loop version artifact [] job errors i k env = do
    let text = join "; " errors
    _ ← outcome (db.update_execution_job (queued_again job text (env.now k)))
    raise (other text)
  dispatch_loop version artifact (c ∷ cs) job errors i k env =
      let a = new_attempt job version c.region (env.uuid i) (env.now 0) in
      let job' = assigned_job job a.id c.region (env.now 0) in
      let next = λ (e : Error).
        dispatch_loop version artifact cs job' (append errors (region_error c.region e ∷ []))
          (suc i) (k + 2) env in
      do
        db.put_attempt a
        db.update_execution_job job'
        answer ← outcome (c.dispatcher.enqueue_execution (assignment_for version artifact job a.id))
        answered a job' k env next answer

  -- A lookup that fails sends the job back to the queue with the error's text.
  abbrev or_requeue {ℓ} :
      {A : Type ℓ} → ExecutionJob → Time → (A → Exec S (Unit {0})) → Result A → Exec S (Unit {0})
  or_requeue job now f (ok a) s = f a s
  or_requeue job now f (err e) s =
      (do _ ← outcome (db.update_execution_job (queued_again job (message e) now)); raise e) s

  unfoldable pub dispatch_job_attempt : FunctionVersion → ExecutionJob → Env → Exec S (Unit {0})
  unfolding dispatch_loop
  dispatch_job_attempt version job env = do
    found ← outcome (db.get_artifact version.artifact_digest)
    or_requeue job (env.now 0)
        (λ artifact. do
          ranking ← outcome (rank_dispatchers svc version env.rank_now)
          or_requeue job (env.now 0)
              (λ candidates. dispatch_loop version artifact candidates job [] 0 1 env) ranking)
        found

  abbrev fail_job : ExecutionJob → String → Time → Exec S Bool
  fail_job job text now = do
    db.update_execution_job (record job { state = JobState.failed; error = text; updated_at = now })
    pure true

  abbrev attempted : Result (Unit {0}) → Exec S Bool
  attempted (ok u) s = (ok true, s)
  attempted (err e) s = (ok (not (is_no_execution_capacity e)), s)

  abbrev with_version : ExecutionJob → Time → Env → Result FunctionVersion → Exec S Bool
  with_version job now env (err e) s = fail_job job (message e) now s
  with_version job now env (ok version) s =
      (do answer ← outcome (dispatch_job_attempt version job env); attempted answer) s

  -- A claimed job by whether its attempts are over its budget.
  abbrev by_budget : ExecutionJob → Time → Env → Bool → Exec S Bool
  by_budget job now env true s = fail_job job ("job " ++ (job.id ++ " exceeded retry budget")) now s
  by_budget job now env false s =
      (do
        version ← outcome (db.get_function_version job.function_version_id)
        with_version job now env version)
        s

  abbrev claimed : Time → Env → Result ExecutionJob → Exec S Bool
  claimed now env (err e) s = if is_not_found e then (ok false, s) else (err e, s)
  claimed now env (ok job) s = by_budget job now env (ltb job.max_retries job.attempt_count) s

  -- scheduleNext: `claimed_at` and `now` are its own readings of the clock, `env` those of the
  -- dispatch that it may start.
  unfoldable pub schedule_next : Time → Time → Env → Exec S Bool
  unfolding dispatch_job_attempt
  schedule_next claimed_at now env = do
    job ← outcome (
        db.claim_next_execution_job (JobState.queued ∷ JobState.retrying ∷ []) JobState.scheduling
          claimed_at)
    claimed now env job

  -- recoverStaleScheduling. `now` is past the timeout, as wall clock times are.
  unfoldable pub recover_stale_scheduling : Time → Exec S ℕ
  recover_stale_scheduling now =
      if svc.scheduling_timeout == 0
      then pure 0
      else db.requeue_stale_execution_jobs JobState.scheduling JobState.queued
          (now - svc.scheduling_timeout) now "scheduling claim expired before dispatch"
