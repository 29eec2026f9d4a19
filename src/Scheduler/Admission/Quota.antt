-- ===== src/Scheduler/Admission/Quota.antt =====
-- A project's quota of active executions, over the in-memory store.
use lecrev.Prelude.{ℕ, ◌≤◌, String, ◌≡◌, false, some, arith, ◌==◌, eq_refl}
use lecrev.Maps.{get, get-put, count_if, count_if-put}
use lecrev.Errors.{ok, err, project_execution_quota}
use lecrev.Domain.{Bytes, ExecutionJob, FunctionVersion, Time}
use lecrev.Store.Jobs.{in_project_states}
use lecrev.Store.Backend.{World, memory}
use lecrev.Scheduler.State.{Service}
use lecrev.Scheduler.Admission.{active_states, enqueue_execution, queued_job}

-- The service over the in-memory store.
abbrev pub with_memory : {W : Type 0} → Service (World W) → Service (World W)
with_memory svc = record svc { db = memory }

-- The project's jobs that are neither done nor failed.
abbrev pub active_count : {W : Type 0} → String → World W → ℕ
active_count project w = count_if (in_project_states project active_states) w.store.execution_jobs

module _ {W : Type 0} (svc : Service (World W)) where
  -- An execution that is admitted under a limit is stored as a queued job, and the project's active
  -- jobs, this one among them, are within the limit.
  pub enqueue-quota :
      (version : FunctionVersion) (payload : Bytes) (now : Time) (id : String) (w : World W)
      {job : ExecutionJob} {w' : World W}
      → (svc.max_active_execution_jobs_per_project == 0) ≡ false
      → enqueue_execution (with_memory svc) version payload now id w ≡ (ok job, w')
      → (job ≡ queued_job version payload now id)
        × (get w'.store.execution_jobs id ≡ some job)
        × (active_count version.project_id w' ≤ svc.max_active_execution_jobs_per_project)
  unfolding enqueue_execution memory
  enqueue-quota version payload now id w l e = ground (
    arith,
    eq_refl id,
    get-put w.store.execution_jobs id id (queued_job version payload now id),
    count_if-put (in_project_states version.project_id active_states) w.store.execution_jobs id
        (queued_job version payload now id),
  )

  -- A project that has as many active jobs as the limit allows is refused, and nothing is stored.
  enqueue-refused :
      (version : FunctionVersion) (payload : Bytes) (now : Time) (id : String) (w : World W)
      → (svc.max_active_execution_jobs_per_project == 0) ≡ false
      → svc.max_active_execution_jobs_per_project ≤ active_count version.project_id w
      → enqueue_execution (with_memory svc) version payload now id w ≡ (
        err (
            project_execution_quota version.project_id
              (active_count version.project_id w)
              svc.max_active_execution_jobs_per_project),
        w,
      )
  unfolding enqueue_execution memory
  enqueue-refused version payload now id w l e = ground arith
