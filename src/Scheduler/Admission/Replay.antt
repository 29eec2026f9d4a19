-- ===== src/Scheduler/Admission/Replay.antt =====
-- A request that is repeated under its idempotency key, over the in-memory store.
use lecrev.Prelude.{String, ◌≡◌, false, arith, eq_refl, str_eq, Option-cases, inl, inr}
use lecrev.Maps.{get, put, get-put}
use lecrev.Errors.{ok, Result-cases}
use lecrev.Domain.{Bytes, ExecutionJob, IdempotencyRecord, IdempotencyStatus}
use lecrev.Store.Idempotency.{idempotency_key}
use lecrev.Store.Backend.{World, memory}
use lecrev.Scheduler.State.{Service, Env}
use lecrev.Scheduler.Admission.{
  dispatch_execution_idempotent, enqueue_execution, enforce_execution_quota, replay_execution,
  invoke_record, queued_job,
}
use lecrev.Scheduler.Admission.Quota.{with_memory}

module _ {W : Type 0} (svc : Service (World W)) where
  -- A replay returns a stored job and writes nothing.
  replay-pure :
      (project key hash : String) (w : World W) {job : ExecutionJob} {w' : World W}
      → replay_execution (with_memory svc) project key hash w ≡ (ok job, w')
      → w' ≡ w
  unfolding replay_execution memory
  replay-pure project key hash w e = ground arith

  -- A keyed request that succeeded gives the same job when it is made again, at any later time and
  -- with whatever fresh identifiers, and the second call writes nothing. Identifiers are not empty.
  pub dispatch_twice :
      (version_id key : String) (payload : Bytes) (env env' : Env) (w : World W)
      {job : ExecutionJob} {w' : World W}
      → str_eq key "" ≡ false
      → str_eq (env.uuid 0) "" ≡ false
      → dispatch_execution_idempotent (with_memory svc) version_id payload key env w ≡ (ok job, w')
      → dispatch_execution_idempotent (with_memory svc) version_id payload key env' w'
        ≡ (ok job, w')
  unfolding dispatch_execution_idempotent enqueue_execution enforce_execution_quota replay_execution
      memory
  dispatch_twice version_id key payload env env' w {job} {w'} h k e =
      elim (Option-cases (get w.store.functions version_id)) [
        | inl n ↦ ground (arith, n)
        | inr (version, v) ↦ elim (Result-cases (svc.request_hash version_id payload)) [
          | inl (x, n) ↦ ground (arith, v, n)
          | inr (hash, n) ↦
              let r = invoke_record version.project_id key hash (env.now 0) in
              let K = idempotency_key "invoke" version.project_id key in
              let new = queued_job version payload (env.now 1) (env.uuid 0) in
              let done : IdempotencyRecord = record r {
                resource_id = env.uuid 0;
                status = IdempotencyStatus.completed;
                updated_at = env.now 2;
              } in
              let m = put w.store.idempotency K r in
              elim (Option-cases (get w.store.idempotency K)) [
                | inl f ↦ ground (
                  arith,
                  v,
                  n,
                  f,
                  eq_refl K,
                  eq_refl hash,
                  eq_refl (env.uuid 0),
                  get-put w.store.idempotency K K r,
                  get-put m K K done,
                  get-put w.store.execution_jobs (env.uuid 0) (env.uuid 0) new,
                )
                | inr (old, f) ↦ ground (arith, v, n, f)
              ]
        ]
      ]
