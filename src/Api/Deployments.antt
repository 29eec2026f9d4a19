-- ===== src/Api/Deployments.antt =====
-- internal/httpapi/server.go, types.go: the summaries of versions, builds and executions, and the
-- listing of a tenant's deployments.
pub mod Listing
use lecrev.Prelude.{
  ℕ, zero, suc, ◌+◌, String, Bool, true, false, not, ◌&&◌, ◌||◌, List, [], ◌∷◌, ◌++◌, Option, none,
  some, select, ltb, leb, ◌==◌, if◌then◌else◌, length, str_eq, map,
}
use lecrev.Prelude.Int.{ℤ}
use lecrev.Prelude.Text.{trim_space, str_ltb}
use lecrev.Maps.{Assoc, get, put}
use lecrev.Sorting.{sort_stable}
use lecrev.Errors.{Result, Exec, ok, err, pure, ◌>>=◌}
use lecrev.Domain.{
  Time, Bytes, Project, FunctionVersion, FunctionState, BuildJob, ExecutionJob, JobResult, JobState,
  NetworkPolicy, SourceType, DeployRequest, job_state_eq, is_ready,
}
use lecrev.Prelude.Take.{take}
use lecrev.Build.Requests.{lookup}
use lecrev.Build.Metadata.{deployment_environment}
use lecrev.Store.Backend.{Backend}
use lecrev.Api.Text.{compute_latency_ms}

pub record BuildJobSummary : Type 0 where
  pub id : String
  pub function_version_id : String
  pub target_region : String
  pub state : String
  pub error : String
  pub logs_ready : Bool
  pub created_at : Time
  pub updated_at : Time

pub record ExecutionResultSummary : Type 0 where
  pub exit_code : ℤ
  pub host_id : String
  pub region : String
  pub started_at : Time
  pub finished_at : Time
  pub latency_ms : ℕ
  pub logs_ready : Bool
  pub output_ready : Bool

pub record ExecutionJobSummary : Type 0 where
  pub id : String
  pub function_version_id : String
  pub target_region : String
  pub state : JobState
  pub max_retries : ℕ
  pub attempt_count : ℕ
  pub last_attempt_id : String
  pub error : String
  pub result : Option ExecutionResultSummary
  pub created_at : Time
  pub updated_at : Time

pub record DeploymentSummary : Type 0 where
  pub id : String
  pub project_id : String
  pub project_name : String
  pub function_version_id : String
  pub name : String
  pub runtime : String
  pub source_type : SourceType
  pub environment : String
  pub branch : String
  pub commit_sha : String
  pub git_url : String
  pub status : String
  pub function_state : FunctionState
  pub regions : List String
  pub build : Option BuildJobSummary
  pub last_job : Option ExecutionJobSummary
  pub created_at : Time
  pub updated_at : Time

abbrev nonblank : String → Bool
nonblank text = not (str_eq (trim_space text) "")

unfoldable pub summarize_build_job : BuildJob → BuildJobSummary
summarize_build_job item = record {
  id = item.id;
  function_version_id = item.function_version_id;
  target_region = item.target_region;
  state = item.state;
  error = item.error;
  logs_ready = nonblank item.logs_key;
  created_at = item.created_at;
  updated_at = item.updated_at;
}

summarize_result : Option JobResult → Option ExecutionResultSummary
unfolding compute_latency_ms
summarize_result none = none
summarize_result (some r) = some (record {
  exit_code = r.exit_code;
  host_id = r.host_id;
  region = r.region;
  started_at = r.started_at;
  finished_at = r.finished_at;
  latency_ms = compute_latency_ms r.started_at r.finished_at;
  logs_ready = nonblank r.logs_key;
  output_ready = nonblank r.output_key;
})

unfoldable pub summarize_execution_job : ExecutionJob → ExecutionJobSummary
unfolding summarize_result
summarize_execution_job item = record {
  id = item.id;
  function_version_id = item.function_version_id;
  target_region = item.target_region;
  state = item.state;
  max_retries = item.max_retries;
  attempt_count = item.attempt_count;
  last_attempt_id = item.last_attempt_id;
  error = item.error;
  result = summarize_result item.result;
  created_at = item.created_at;
  updated_at = item.updated_at;
}

abbrev is_failed : FunctionState → Bool
is_failed FunctionState.failed = true
is_failed _ = false

abbrev build_failed : Option BuildJobSummary → Bool
build_failed none = false
build_failed (some build) = str_eq build.state "failed" || nonblank build.error

abbrev job_failed : Option ExecutionJobSummary → Bool
job_failed none = false
job_failed (some job) = job_state_eq job.state JobState.failed || nonblank job.error

abbrev job_succeeded : Option ExecutionJobSummary → Bool
job_succeeded none = false
job_succeeded (some job) = job_state_eq job.state JobState.succeeded

unfoldable pub deployment_status :
    FunctionVersion → Option BuildJobSummary → Option ExecutionJobSummary → String
deployment_status version build job =
    if is_failed version.state || build_failed build || job_failed job
    then "failed"
    else if job_succeeded job
    then "active"
    else if is_ready version.state
    then "ready"
    else "building"

-- The first build or job of each version, which is the latest of the lists that come in.
unfoldable pub first_build : List BuildJob → String → Option BuildJob
first_build [] id = none
first_build (job ∷ jobs) id =
    if str_eq job.function_version_id id then some job else first_build jobs id

unfoldable pub first_job : List ExecutionJob → String → Option ExecutionJob
first_job [] id = none
first_job (job ∷ jobs) id =
    if str_eq job.function_version_id id then some job else first_job jobs id

abbrev later : Time → Time → Time
later t u = if ltb t u then u else t

-- What a summary says of the source.
pub record Origin : Type 0 where
  pub environment : String
  pub branch : String
  pub commit_sha : String
  pub git_url : String

abbrev or_text : String → String → String
or_text text other_text = if str_eq text "" then other_text else text

abbrev with_request : Origin → Option DeployRequest → Origin
with_request origin none = origin
with_request origin (some request) = record origin {
  environment = or_text origin.environment (deployment_environment request.source);
  branch = or_text origin.branch (trim_space request.source.git_ref);
  git_url = or_text origin.git_url (trim_space request.source.git_url);
}

-- decodeDeploymentRequest is JSON, and a parameter.
module _ (decode : Bytes → Option DeployRequest) where
  abbrev origin_of : Option BuildJob → Origin
  origin_of none = record { environment = ""; branch = ""; commit_sha = ""; git_url = "" }
  origin_of (some job) =
      with_request
        (record {
          environment = trim_space (lookup job.metadata "environment");
          branch = trim_space (lookup job.metadata "branch");
          commit_sha = trim_space (lookup job.metadata "commitSha");
          git_url = trim_space (lookup job.metadata "gitUrl");
        })
        (decode job.request)

  abbrev build_time : Option BuildJob → Time → Time
  build_time none t = t
  build_time (some job) t = later t job.updated_at

  abbrev job_time : Option ExecutionJob → Time → Time
  job_time none t = t
  job_time (some job) t = later t job.updated_at

  abbrev map_some : {A B : Type 0} → (A → B) → Option A → Option B
  map_some f none = none
  map_some f (some a) = some (f a)

  unfoldable pub summarize_deployment :
      Project → FunctionVersion → Option BuildJob → Option ExecutionJob → DeploymentSummary
  unfolding summarize_build_job summarize_execution_job deployment_status
  summarize_deployment project version build job =
      let origin = origin_of build in
      let build_summary = map_some summarize_build_job build in
      let job_summary = map_some summarize_execution_job job in
      record {
        id = version.id;
        project_id = project.id;
        project_name = project.name;
        function_version_id = version.id;
        name = version.name;
        runtime = version.runtime;
        source_type = version.source_type;
        environment = origin.environment;
        branch = origin.branch;
        commit_sha = origin.commit_sha;
        git_url = origin.git_url;
        status = deployment_status version build_summary job_summary;
        function_state = version.state;
        regions = version.regions;
        build = build_summary;
        last_job = job_summary;
        created_at = version.created_at;
        updated_at = job_time job (build_time build version.created_at);
      }

  unfoldable pub summarize_deployments :
      Project → List FunctionVersion → List BuildJob → List ExecutionJob → List DeploymentSummary
  unfolding summarize_deployment first_build first_job
  summarize_deployments project [] builds jobs = []
  summarize_deployments project (version ∷ versions) builds jobs =
      summarize_deployment project version (first_build builds version.id)
        (first_job jobs version.id)
      ∷ summarize_deployments project versions builds jobs

-- strings.ToLower is a parameter; the filters are in lower case already.
module _ (lower : String → String) where
  abbrev pub keeps : String → String → DeploymentSummary → Bool
  keeps status_filter environment_filter item =
      (str_eq status_filter "" || str_eq (lower item.status) status_filter)
      && (str_eq environment_filter ""
          || str_eq (lower (trim_space item.environment)) environment_filter)

  unfoldable pub filter_deployment_summaries :
      List DeploymentSummary → String → String → List DeploymentSummary
  filter_deployment_summaries items status_filter environment_filter =
      select (keeps status_filter environment_filter) items

abbrev pub newer : DeploymentSummary → DeploymentSummary → Bool
newer a b =
    if a.created_at == b.created_at then str_ltb b.id a.id else ltb b.created_at a.created_at

unfoldable pub sort_deployments : List DeploymentSummary → List DeploymentSummary
sort_deployments items = sort_stable newer items

unfoldable pub limit_items : {A : Type 0} → List A → ℕ → List A
unfolding take
limit_items items limit = if leb (length items) limit then items else take limit items

-- The listing, once the stores have answered.
unfoldable pub list_deployments :
    (String → String) → List DeploymentSummary → String → String → ℕ → List DeploymentSummary
unfolding filter_deployment_summaries sort_deployments limit_items
list_deployments lower items status_filter environment_filter limit =
    limit_items
      (sort_deployments (filter_deployment_summaries lower items status_filter environment_filter))
      limit
