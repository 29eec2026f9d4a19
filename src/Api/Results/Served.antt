-- ===== src/Api/Results/Served.antt =====
-- What is served of an execution is what its agent archived, and a wait ends.
use lecrev.Prelude.{
  ℕ, zero, suc, ◌≤◌, true, false, ◌≡◌, refl, none, some, arith, str_eq, Bool-cases, inl, inr,
}
use lecrev.Prelude.Text.{trim_space}
use lecrev.Maps.{get}
use lecrev.Errors.{Result, ok}
use lecrev.Domain.{Bytes, ExecutionJob, JobResult, job_finished}
use lecrev.Artifact.Objects.{MemoryStore, memory_objects, memory_get}
use lecrev.Api.Results.{execution_logs_data, wait_for_execution_job, read}

-- A job that the store shows finished at some poll before the context is done, and that can be read
-- at every poll before, is waited for with success: the wait returns a finished job and no error.
pub wait-finished :
    (polls k : ℕ) (get_job : ℕ → Result ExecutionJob) (job : ExecutionJob)
    → k ≤ polls
    → get_job k ≡ ok job
    → job_finished job.state ≡ true
    → ((i : ℕ) → suc i ≤ k → (earlier : ExecutionJob) × (get_job i ≡ ok earlier))
    → (found : ExecutionJob) × (wait_for_execution_job polls get_job ≡ (none, some found))
      × (job_finished found.state ≡ true)
unfolding wait_for_execution_job
wait-finished zero zero get_job job h e f read = (job, rw (e, f) refl, f)
wait-finished zero (suc k) get_job job h e f read = absurd (omega (arith, h))
wait-finished (suc polls) zero get_job job h e f read = (job, rw (e, f) refl, f)
wait-finished (suc polls) (suc k) get_job job h e f read =
    let (earlier, r) = read 0 (omega arith) in
    let (found, w, d) =
      wait-finished polls k (λ i. get_job (suc i)) job (omega (arith, h)) e f
        (λ i l. read (suc i) (omega (arith, l))) in
    elim (Bool-cases (job_finished earlier.state)) [
      | inl b ↦ (earlier, rw (r, b) refl, b)
      | inr b ↦ (found, rw (r, b) w, d)
    ]

-- The logs that are served of an attempt are the bytes that were archived for it, whatever the job
-- carries itself.
archived_logs :
    (job : ExecutionJob) (result : JobResult) (bytes : Bytes) (m : MemoryStore)
    → job.result ≡ some result
    → str_eq (trim_space result.logs_key) "" ≡ false
    → get m (trim_space result.logs_key) ≡ some bytes
    → execution_logs_data memory_objects job m ≡ (ok bytes, m)
unfolding execution_logs_data memory_get
archived_logs job result bytes m r k g = ground (arith, r, k, g)
