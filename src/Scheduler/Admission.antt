-- ===== src/Scheduler/Admission.antt =====
-- internal/scheduler/service.go: DispatchExecution with idempotency keys and the project's quota,
-- and RetryExecution.
pub mod Quota
pub mod Replay
use Prim.Native.String.{◌++◌}
use lecrev.Prelude.{
  String, Bool, true, false, not, ◌||◌, List, [], ◌∷◌, none, ltb, leb, ◌==◌, if◌then◌else◌, str_eq,
}
use lecrev.Errors.{
  Result, ok, err, Exec, pure, raise, outcome, lift, ◌>>=◌, ◌>>◌, is_already_exists,
  idempotency_conflict, idempotency_in_progress, project_execution_quota, other,
}
use lecrev.Domain.{
  Time, Bytes, ExecutionJob, FunctionVersion, IdempotencyRecord, IdempotencyStatus, JobState,
}
use lecrev.Scheduler.State.{Service, Env}

abbrev pub active_states : List JobState
active_states =
    JobState.queued ∷ JobState.scheduling ∷ JobState.assigned ∷ JobState.running ∷ JobState.retrying
    ∷ []

abbrev pub queued_job : FunctionVersion → Bytes → Time → String → ExecutionJob
queued_job version payload now id = record {
  id = id;
  function_version_id = version.id;
  project_id = version.project_id;
  target_region = "";
  state = JobState.queued;
  payload = payload;
  max_retries = version.max_retries;
  attempt_count = 0;
  last_attempt_id = "";
  error = "";
  result = none;
  created_at = now;
  updated_at = now;
}

abbrev pub invoke_record : String → String → String → Time → IdempotencyRecord
invoke_record project_id key request_hash now = record {
  scope = "invoke";
  project_id = project_id;
  key = key;
  request_hash = request_hash;
  resource_id = "";
  resource = "execution_job";
  status = IdempotencyStatus.pending;
  created_at = now;
  updated_at = now;
}

abbrev pub is_completed : IdempotencyStatus → Bool
is_completed IdempotencyStatus.completed = true
is_completed IdempotencyStatus.pending = false

module _ {S : Type 0} (svc : Service S) where
  open svc use {db}

  unfoldable pub enforce_execution_quota : String → Exec S (Unit {0})
  enforce_execution_quota project_id =
      let limit = svc.max_active_execution_jobs_per_project in
      if limit == 0 then pure tt else do
        count ← db.count_execution_jobs_by_project_states project_id active_states
        if leb limit count then raise (project_execution_quota project_id count limit) else pure tt

  unfoldable pub enqueue_execution : FunctionVersion → Bytes → Time → String → Exec S ExecutionJob
  unfolding enforce_execution_quota
  enqueue_execution version payload now id = do
    enforce_execution_quota version.project_id
    db.put_execution_job (queued_job version payload now id)
    pure (queued_job version payload now id)

  unfoldable pub replay_execution : String → String → String → Exec S ExecutionJob
  replay_execution project_id key request_hash = do
    r ← db.get_idempotency_record "invoke" project_id key
    if not (str_eq r.request_hash request_hash)
        then raise idempotency_conflict
        else if not (is_completed r.status) || str_eq r.resource_id ""
        then raise idempotency_in_progress
        else db.get_execution_job r.resource_id

  -- What follows the attempt to enqueue: the record is dropped or completed.
  abbrev settle : IdempotencyRecord → Time → Result ExecutionJob → Exec S ExecutionJob
  settle r now (err e) = do
    _ ← outcome (db.delete_idempotency_record r.scope r.project_id r.key)
    raise e
  settle r now (ok job) = do
    db.update_idempotency_record
        (record r { resource_id = job.id; status = IdempotencyStatus.completed; updated_at = now })
    pure job

  abbrev created :
      FunctionVersion
      → Bytes
      → String
      → IdempotencyRecord
      → Env
      → Result (Unit {0})
      → Exec S ExecutionJob
  created version payload key r env (err e) =
      if is_already_exists e
      then replay_execution version.project_id key r.request_hash
      else raise e
  created version payload key r env (ok u) = do
    result ← outcome (enqueue_execution version payload (env.now 1) (env.uuid 0))
    settle r (env.now 2) result

  unfoldable pub dispatch_execution_idempotent : String → Bytes → String → Env → Exec S ExecutionJob
  unfolding enqueue_execution replay_execution
  dispatch_execution_idempotent version_id payload key env = do
    version ← db.get_function_version version_id
    if str_eq key "" then enqueue_execution version payload (env.now 0) (env.uuid 0) else do
      request_hash ← lift (svc.request_hash version_id payload)
      let r = invoke_record version.project_id key request_hash (env.now 0)
      answer ← outcome (db.create_idempotency_record r)
      created version payload key r env answer

  unfoldable pub dispatch_execution : String → Bytes → Env → Exec S ExecutionJob
  unfolding dispatch_execution_idempotent
  dispatch_execution version_id payload env =
      dispatch_execution_idempotent version_id payload "" env

  unfoldable pub retry_execution : String → Time → Exec S ExecutionJob
  retry_execution id now = do
    job ← db.get_execution_job id
    if ltb job.max_retries job.attempt_count
        then raise (other ("job " ++ (job.id ++ " exceeded retry budget")))
        else do
          let retried : ExecutionJob = record job {
            state = JobState.retrying;
            error = "";
            target_region = "";
            updated_at = now;
          }
          db.update_execution_job retried
          pure retried
