-- ===== src/Api/Reads.antt =====
-- internal/httpapi/server.go: the handlers that read builds, executions and deployments. A handler
-- is what it returns to writeServiceError, writeJSON or writeRaw; its status is 200.
pub mod Tenants
use lecrev.Prelude.{String, List, [], ◌∷◌, Option, none, some, if◌then◌else◌, str_eq}
use lecrev.Prelude.Text.{trim_space}
use lecrev.Errors.{
  Error, Result, Exec, ok, err, pure, raise, outcome, lift, ◌>>=◌, ◌>>◌, is_not_found,
  build_logs_not_ready, execution_result_not_ready,
}
use lecrev.Domain.{
  Bytes, Project, FunctionVersion, BuildJob, ExecutionJob, Attempt, CostRecord, DeployRequest,
}
use lecrev.Artifact.Objects.{ObjectStore}
use lecrev.Store.Backend.{Backend, JobLists}
use lecrev.Api.Auth.{
  AuthContext, authorized_job, authorized_build_job, authorized_project, authorized_version,
}
use lecrev.Api.Text.{with_job_latency, with_attempt_latency}
use lecrev.Api.Results.{execution_logs_data, execution_output_data}
use lecrev.Api.Deployments.{DeploymentSummary, summarize_deployment, first_build, first_job}

module _ {S : Type 0} (db : Backend S) (lists : JobLists S) (objects : ObjectStore S)
    (auth : AuthContext) where
  unfoldable pub get_build_job : String → Exec S BuildJob
  unfolding authorized_build_job
  get_build_job job_id = do found ← authorized_build_job db auth job_id; pure found.0

  -- The logs under a key, if there is one.
  abbrev build_logs : String → Exec S Bytes
  build_logs key =
      if str_eq (trim_space key) "" then raise build_logs_not_ready else objects.get_object key

  unfoldable pub get_build_job_logs : String → Exec S Bytes
  unfolding authorized_build_job
  get_build_job_logs job_id = do
    found ← authorized_build_job db auth job_id
    build_logs found.0.logs_key

  unfoldable pub get_job : String → Exec S ExecutionJob
  unfolding authorized_job with_job_latency
  get_job job_id = do job ← authorized_job db auth job_id; pure (with_job_latency job)

  unfoldable pub list_job_attempts : String → Exec S (List Attempt)
  unfolding authorized_job with_attempt_latency
  list_job_attempts job_id = do
    authorized_job db auth job_id
    attempts ← lists.list_attempts_by_job job_id
    pure (with_attempt_latency attempts)

  unfoldable pub list_job_costs : String → Exec S (List CostRecord)
  unfolding authorized_job
  list_job_costs job_id = do authorized_job db auth job_id; lists.list_cost_records_by_job job_id

  unfoldable pub get_job_logs : String → Exec S Bytes
  unfolding authorized_job execution_logs_data
  get_job_logs job_id = do job ← authorized_job db auth job_id; execution_logs_data objects job

  unfoldable pub get_job_output : String → Exec S Bytes
  unfolding authorized_job execution_output_data
  get_job_output job_id = do job ← authorized_job db auth job_id; execution_output_data objects job

  unfoldable pub get_project : String → Exec S Project
  unfolding authorized_project
  get_project project_id = authorized_project db auth project_id

  unfoldable pub get_function : String → Exec S FunctionVersion
  unfolding authorized_version
  get_function version_id = authorized_version db auth version_id

  -- A deployment, with its build if it is stored and its latest job if it has one; the decoding of
  -- the build's request is a parameter.
  abbrev or_missing : Result BuildJob → Exec S (Option BuildJob)
  or_missing (ok job) = pure (some job)
  or_missing (err e) = if is_not_found e then pure none else raise e

  abbrev build_of : FunctionVersion → Exec S (Option BuildJob)
  build_of version =
      if str_eq (trim_space version.build_job_id) ""
      then pure none
      else do found ← outcome (db.get_build_job version.build_job_id); or_missing found

  abbrev listed : Option BuildJob → List BuildJob
  listed none = []
  listed (some job) = job ∷ []

  abbrev Deployment : Type 0
  Deployment = DeploymentSummary × Option BuildJob × Option ExecutionJob

  abbrev loaded : (Bytes → Option DeployRequest) → FunctionVersion → Project → Exec S Deployment
  loaded decode version project = do
    build ← build_of version
    jobs ← lists.list_execution_jobs_by_project version.project_id
    pure (
      summarize_deployment decode project version (first_build (listed build) version.id)
          (first_job jobs version.id),
      build,
      first_job jobs version.id,
    )

  unfoldable pub load_authorized_deployment :
      (Bytes → Option DeployRequest) → String → Exec S Deployment
  unfolding authorized_project summarize_deployment first_build first_job
  load_authorized_deployment decode deployment_id = do
    version ← db.get_function_version deployment_id
    project ← authorized_project db auth version.project_id
    loaded decode version project

  unfoldable pub get_deployment : (Bytes → Option DeployRequest) → String → Exec S DeploymentSummary
  unfolding load_authorized_deployment
  get_deployment decode deployment_id = do
    deployment ← load_authorized_deployment decode deployment_id
    pure deployment.0

  -- The logs of the build, for want of an execution's.
  abbrev logs_of_build : Option BuildJob → Error → Exec S Bytes
  logs_of_build none missing = raise missing
  logs_of_build (some job) missing =
      if str_eq (trim_space job.logs_key) "" then raise missing else objects.get_object job.logs_key

  abbrev logs_of : Option BuildJob → Option ExecutionJob → Exec S Bytes
  logs_of build none = logs_of_build build build_logs_not_ready
  logs_of build (some job) = elim job.result [
    | none ↦ logs_of_build build execution_result_not_ready
    | some result ↦ execution_logs_data objects job
  ]

  unfoldable pub get_deployment_logs : (Bytes → Option DeployRequest) → String → Exec S Bytes
  unfolding load_authorized_deployment execution_logs_data
  get_deployment_logs decode deployment_id = do
    deployment ← load_authorized_deployment decode deployment_id
    logs_of deployment.1 deployment.2

  abbrev output_of : Option ExecutionJob → Exec S Bytes
  output_of none = raise execution_result_not_ready
  output_of (some job) = execution_output_data objects job

  unfoldable pub get_deployment_output : (Bytes → Option DeployRequest) → String → Exec S Bytes
  unfolding load_authorized_deployment execution_output_data
  get_deployment_output decode deployment_id = do
    deployment ← load_authorized_deployment decode deployment_id
    output_of deployment.2
