-- ===== src/Api/Projects.antt =====
-- internal/httpapi/server.go, types.go: the handlers that list projects and what is in them. The
-- limit is what queryLimit made of the query.
use Prim.Native.String.{String}
use lecrev.Prelude.{ℕ, ◌+◌, List, [], ◌∷◌, ◌++◌, Option, none, some, length, map}
use lecrev.Prelude.Text.{trim_space}
use lecrev.Maps.{Assoc, get, put}
use lecrev.Errors.{Result, Exec, pure, lift, ◌>>=◌}
use lecrev.Domain.{
  Time, Bytes, Project, FunctionVersion, FunctionState, NetworkPolicy, BuildJob, ExecutionJob,
  JobState, DeployRequest,
}
use lecrev.Store.Backend.{Backend, JobLists}
use lecrev.Api.Auth.{AuthContext, authorized_project}
use lecrev.Api.Deployments.{
  BuildJobSummary, ExecutionJobSummary, DeploymentSummary, summarize_build_job,
  summarize_execution_job, summarize_deployments, list_deployments, limit_items,
}

pub record FunctionVersionSummary : Type 0 where
  pub id : String
  pub name : String
  pub runtime : String
  pub state : FunctionState
  pub entrypoint : String
  pub memory_mb : ℕ
  pub timeout_sec : ℕ
  pub network_policy : NetworkPolicy
  pub regions : List String
  pub build_job_id : String
  pub artifact_digest : String
  pub created_at : Time

unfoldable pub summarize_function_version : FunctionVersion → FunctionVersionSummary
summarize_function_version item = record {
  id = item.id;
  name = item.name;
  runtime = item.runtime;
  state = item.state;
  entrypoint = item.entrypoint;
  memory_mb = item.memory_mb;
  timeout_sec = item.timeout_sec;
  network_policy = item.network_policy;
  regions = item.regions;
  build_job_id = item.build_job_id;
  artifact_digest = item.artifact_digest;
  created_at = item.created_at;
}

-- A job's state as the constant's text.
abbrev state_text : JobState → String
state_text JobState.queued = "queued"
state_text JobState.scheduling = "scheduling"
state_text JobState.assigned = "assigned"
state_text JobState.running = "running"
state_text JobState.retrying = "retrying"
state_text JobState.succeeded = "succeeded"
state_text JobState.failed = "failed"

abbrev next_count : Option ℕ → ℕ
next_count none = 1
next_count (some n) = n + 1

-- counts[key]++ at each key.
unfoldable pub count_keys : List String → Assoc ℕ → Assoc ℕ
count_keys [] counts = counts
count_keys (key ∷ keys) counts = count_keys keys (put counts key (next_count (get counts key)))

pub record ProjectOverview : Type 0 where
  pub project : Project
  pub functions : ℕ
  pub builds_by_state : Assoc ℕ
  pub jobs_by_state : Assoc ℕ
  pub recent_functions : List FunctionVersionSummary
  pub recent_build_jobs : List BuildJobSummary
  pub recent_jobs : List ExecutionJobSummary

module _ {S : Type 0} (db : Backend S) (lists : JobLists S) (auth : AuthContext) where
  unfoldable pub list_projects : Result ℕ → Exec S (List Project)
  unfolding limit_items
  list_projects query = do
    limit ← lift query
    projects ← db.list_projects_by_tenant auth.tenant_id
    pure (limit_items projects limit)

  unfoldable pub list_project_functions : String → Result ℕ → Exec S (List FunctionVersionSummary)
  unfolding authorized_project summarize_function_version limit_items
  list_project_functions project_id query = do
    project ← authorized_project db auth project_id
    limit ← lift query
    versions ← db.list_function_versions_by_project project.id
    pure (map summarize_function_version (limit_items versions limit))

  unfoldable pub list_project_build_jobs : String → Result ℕ → Exec S (List BuildJobSummary)
  unfolding authorized_project summarize_build_job limit_items
  list_project_build_jobs project_id query = do
    project ← authorized_project db auth project_id
    limit ← lift query
    builds ← db.list_build_jobs_by_project project.id
    pure (map summarize_build_job (limit_items builds limit))

  unfoldable pub list_project_jobs : String → Result ℕ → Exec S (List ExecutionJobSummary)
  unfolding authorized_project summarize_execution_job limit_items
  list_project_jobs project_id query = do
    project ← authorized_project db auth project_id
    limit ← lift query
    jobs ← lists.list_execution_jobs_by_project project.id
    pure (map summarize_execution_job (limit_items jobs limit))

  unfoldable pub get_project_overview : String → Result ℕ → Exec S ProjectOverview
  unfolding authorized_project count_keys summarize_function_version summarize_build_job
      summarize_execution_job limit_items
  get_project_overview project_id query = do
    project ← authorized_project db auth project_id
    limit ← lift query
    versions ← db.list_function_versions_by_project project.id
    builds ← db.list_build_jobs_by_project project.id
    jobs ← lists.list_execution_jobs_by_project project.id
    pure (record {
      project = project;
      functions = length versions;
      builds_by_state = count_keys (map (λ (b : BuildJob). b.state) builds) [];
      jobs_by_state = count_keys (map (λ (j : ExecutionJob). state_text j.state) jobs) [];
      recent_functions = map summarize_function_version (limit_items versions limit);
      recent_build_jobs = map summarize_build_job (limit_items builds limit);
      recent_jobs = map summarize_execution_job (limit_items jobs limit);
    })

  -- strings.ToLower and the decoding of requests are parameters.
  module _ (lower : String → String) (decode : Bytes → Option DeployRequest) where
    unfoldable pub deployments_of : List Project → Exec S (List DeploymentSummary)
    unfolding summarize_deployments
    deployments_of [] = pure []
    deployments_of (project ∷ projects) = do
      versions ← db.list_function_versions_by_project project.id
      builds ← db.list_build_jobs_by_project project.id
      jobs ← lists.list_execution_jobs_by_project project.id
      later ← deployments_of projects
      pure (summarize_deployments decode project versions builds jobs ++ later)

    unfoldable pub list_deployments_for_projects :
        List Project → Result ℕ → String → String → Exec S (List DeploymentSummary)
    unfolding deployments_of list_deployments
    list_deployments_for_projects projects query status environment = do
      limit ← lift query
      all ← deployments_of projects
      pure (
          list_deployments lower all (lower (trim_space status)) (lower (trim_space environment))
            limit)

    unfoldable pub list_tenant_deployments :
        Result ℕ → String → String → Exec S (List DeploymentSummary)
    unfolding list_deployments_for_projects
    list_tenant_deployments query status environment = do
      projects ← db.list_projects_by_tenant auth.tenant_id
      list_deployments_for_projects projects query status environment

    unfoldable pub list_project_deployments :
        String → Result ℕ → String → String → Exec S (List DeploymentSummary)
    unfolding list_deployments_for_projects authorized_project
    list_project_deployments project_id query status environment = do
      project ← authorized_project db auth project_id
      list_deployments_for_projects (project ∷ []) query status environment
