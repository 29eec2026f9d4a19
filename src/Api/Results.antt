-- ===== src/Api/Results.antt =====
-- internal/httpapi/server.go: the logs and outputs of executions, and the wait for one.
pub mod Served
use lecrev.Prelude.{
  ℕ, zero, suc, String, Bool, List, [], ◌∷◌, Option, none, some, if◌then◌else◌, str_eq,
}
use lecrev.Prelude.Text.{trim_space}
use lecrev.Prelude.Utf8.{utf8}
use lecrev.Errors.{
  Error, Result, Exec, ok, err, pure, raise, outcome, ◌>>=◌, is_object_not_found,
  execution_result_not_ready, deadline_exceeded,
}
use lecrev.Domain.{Bytes, ExecutionJob, JobResult, job_finished}
use lecrev.Artifact.Objects.{ObjectStore}

pub data ArtifactKind : Type 0 where
  logs output : ArtifactKind

abbrev nonblank : String → Result String
nonblank key = if str_eq (trim_space key) "" then err execution_result_not_ready else ok key

abbrev key_of : JobResult → ArtifactKind → Result String
key_of result logs = nonblank result.logs_key
key_of result output = nonblank result.output_key

abbrev key_in : Option JobResult → ArtifactKind → Result String
key_in none kind = err execution_result_not_ready
key_in (some result) kind = key_of result kind

unfoldable pub job_result_key : ExecutionJob → ArtifactKind → Result String
job_result_key job kind = key_in job.result kind

abbrev or_output : Bytes → Bytes
or_output [] = utf8 "null"
or_output (b ∷ bytes) = b ∷ bytes

module _ {S : Type 0} (objects : ObjectStore S) where
  -- What is stored under the key, or what the job carries if nothing is.
  abbrev stored_or : Bytes → Result Bytes → Exec S Bytes
  stored_or own (ok bytes) = pure bytes
  stored_or own (err e) = if is_object_not_found e then pure own else raise e

  abbrev read : String → Bytes → Exec S Bytes
  read key own =
      if str_eq (trim_space key) ""
      then pure own
      else do r ← outcome (objects.get_object (trim_space key)); stored_or own r

  abbrev logs_in : Option JobResult → Exec S Bytes
  logs_in none = raise execution_result_not_ready
  logs_in (some result) = read result.logs_key result.logs

  unfoldable pub execution_logs_data : ExecutionJob → Exec S Bytes
  execution_logs_data job = logs_in job.result

  abbrev output_in : Option JobResult → Exec S Bytes
  output_in none = raise execution_result_not_ready
  output_in (some result) = read result.output_key (or_output result.output)

  unfoldable pub execution_output_data : ExecutionJob → Exec S Bytes
  execution_output_data job = output_in job.result

-- The wait for a job: `polls` ticks come before the context is done, and `get_job` reads the store
-- at the k-th of them. With the error of the context the job comes back as it was last read.
abbrev waited :
    Result ExecutionJob → Option Error × Option ExecutionJob → Option Error × Option ExecutionJob
waited (err e) later = (some e, none)
waited (ok job) later = if job_finished job.state then (none, some job) else later

abbrev timed_out : Result ExecutionJob → Option Error × Option ExecutionJob
timed_out (err e) = (some e, none)
timed_out (ok job) =
    if job_finished job.state then (none, some job) else (some deadline_exceeded, some job)

unfoldable pub wait_for_execution_job :
    ℕ → (ℕ → Result ExecutionJob) → Option Error × Option ExecutionJob
wait_for_execution_job zero get_job = timed_out (get_job 0)
wait_for_execution_job (suc polls) get_job =
    let later = wait_for_execution_job polls (λ k. get_job (suc k)) in waited (get_job 0) later
