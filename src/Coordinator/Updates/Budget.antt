-- ===== src/Coordinator/Updates/Budget.antt =====
-- A retry that the coordinator starts is one that the scheduler accepts.
use lecrev.Prelude.{
  String, ◌≡◌, true, false, none, some, ltb, arith, eq_refl, Option, refl, Bool, ◌&&◌,
  if◌then◌else◌, Option-cases, inl, inr,
}
use lecrev.Maps.{get, put, get-put}
use lecrev.Errors.{ok, bind_ok, Exec, pure, ◌>>=◌}
use lecrev.Domain.{Attempt, ExecutionJob, JobState, Time}
use lecrev.Store.Backend.{World, memory}
use lecrev.Scheduler.{Service}
use lecrev.Scheduler.Admission.{retry_execution}
use lecrev.Scheduler.Admission.Quota.{with_memory}
use lecrev.Coordinator.Service.{AssignmentUpdate}
use lecrev.Coordinator.Node.{Node}
use lecrev.Coordinator.Updates.{
  apply_update, record_cost, apply_to_attempt, apply_to_job, cost_if, is_terminal, is_failed,
  is_retrying,
}

-- The node after the two writes of an update.
abbrev updated : {W : Type 0} → Node (World W) → Attempt → ExecutionJob → Node (World W)
updated n a job = record n {
  shared = record n.shared {
    store = record n.shared.store {
      attempts = put n.shared.store.attempts a.id a;
      execution_jobs = put n.shared.store.execution_jobs job.id job;
    };
  };
}

-- The cost record does not touch the jobs.
cost-jobs :
    {W : Type 0} (a : Attempt) (job : ExecutionJob) (now : Time) (b : Bool) (n : Node (World W))
    → (cost_if memory b a job now n).1.shared.store.execution_jobs ≡ n.shared.store.execution_jobs
unfolding record_cost memory
cost-jobs a job now true n = ground arith
cost-jobs a job now false n = refl

-- The retry that an update starts, if any.
abbrev retry_of : AssignmentUpdate → ExecutionJob → Option String
retry_of msg job = if is_failed msg.state && is_retrying job.state then some job.id else none

retries :
    (msg : AssignmentUpdate) (a : Attempt) (now : Time) (has_retryer : Bool) (before : ExecutionJob)
    (id : String)
    → let job = apply_to_job msg a now has_retryer msg.state before in
      retry_of msg job ≡ some id
      → (job.id ≡ id)
        × (job.state ≡ JobState.retrying)
        × (ltb job.max_retries job.attempt_count ≡ false)
unfolding apply_to_job
retries msg a now has_retryer before id e = ground arith

retry-accepted :
    {W : Type 0} (svc : Service (World W)) (id : String) (later : Time) (w : World W)
    (job : ExecutionJob)
    → get w.store.execution_jobs id ≡ some job
    → job.state ≡ JobState.retrying
    → ltb job.max_retries job.attempt_count ≡ false
    → (retry_execution (with_memory svc) id later w).0
      ≡ ok (record job { error = ""; target_region = ""; updated_at = later })
unfolding retry_execution memory
retry-accepted svc id later w job g s l = ground (arith, g, s, l)

-- If a reported failure starts a retry of a job, the job is stored as retrying with attempts left,
-- and the scheduler's RetryExecution on it succeeds.
pub retry-within-budget :
    {W : Type 0} (svc : Service (World W)) (msg : AssignmentUpdate) (now later : Time)
    (n : Node (World W)) {id : String} {n' : Node (World W)}
    → apply_update memory msg now n ≡ (ok (some id), n')
    → (job : ExecutionJob) × (get n'.shared.store.execution_jobs id ≡ some job)
      × (job.state ≡ JobState.retrying)
      × (ltb job.max_retries job.attempt_count ≡ false)
      × ((retry_execution (with_memory svc) id later n'.shared).0
          ≡ ok (record job { error = ""; target_region = ""; updated_at = later }))
unfolding apply_update memory
retry-within-budget {W} svc msg now later n {id} {n'} e =
    elim (Option-cases (get n.shared.store.attempts msg.attempt_id)) [
      | inl f ↦ ground (arith, f)
      | inr (a, f) ↦ elim (Option-cases (get n.shared.store.execution_jobs msg.job_id)) [
        | inl g ↦ ground (arith, f, g)
        | inr (before, g) ↦
            let after = apply_to_attempt msg now msg.state a in
            let job = apply_to_job msg after now n.self.has_retryer msg.state before in
            let retry = retry_of msg job in
            let stored = updated n after job in
            let cost : Exec (Node (World W)) (Unit {0}) =
              cost_if memory (is_terminal msg.state) after job now in
            let e0 : (cost >>= λ u. pure retry) stored ≡ (ok (some id), n') =
              ground (arith, f, g) in
            let (u, _, e1) = bind_ok cost (λ u. pure retry) stored e0 in
            let kept = cost-jobs after job now (is_terminal msg.state) stored in
            let r = retries msg after now n.self.has_retryer before id (ground (arith, e1)) in
            let found : get n'.shared.store.execution_jobs id ≡ some job = ground (
              arith,
              e1,
              kept,
              r.0,
              eq_refl id,
              get-put n.shared.store.execution_jobs job.id id job,
            ) in
            (job, found, r.1, r.2, retry-accepted svc id later n'.shared job found r.1 r.2)
      ]
    ]
