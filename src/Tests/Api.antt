-- ===== src/Tests/Api.antt =====
-- The theorems of the HTTP API at concrete inputs.
use lecrev.Prelude.{
  ℕ, zero, suc, ◌≤◌, String, Bool, true, false, ◌≡◌, ◌⊎◌, inl, inr, refl, ap, none, some, List, [],
  ◌∷◌, arith, All, In, length, ◌==◌, str_eq,
}
use lecrev.Maps.{get, put}
use lecrev.Errors.{pure, Result, ok}
use lecrev.Domain.{
  FunctionVersion, ApiKey, BuildJob, FunctionState, Project, SourceType, HttpTrigger,
  HttpTriggerAuthMode, ExecutionJob, JobState, job_finished,
}
use lecrev.Sorting.{IsSorted}
use lecrev.Store.Backend.{memory, memory_job_lists}
use lecrev.Scheduler.Admission.Quota.{with_memory}
use lecrev.Api.Auth.{
  AuthContext, authenticate_api_key, ensure_authorized_project, authorized_build_job,
}
use lecrev.Api.Auth.Tenants.{
  MayTouch, authenticate-stored, ensure-own, authorized_build_job-MayTouch,
}
use lecrev.Api.Text.{normalize_project_id}
use lecrev.Api.Text.Slug.{Clean, EndsPlain, normalize_project_id-Clean}
use lecrev.Api.Triggers.{invoke_function, create_http_trigger, failure}
use lecrev.Api.Triggers.Access.{invoke-foreign, create_http_trigger-MayTouch}
use lecrev.Api.Deployments.{DeploymentSummary, list_deployments, keeps, newer}
use lecrev.Api.Deployments.Listing.{listing-IsSorted}
use lecrev.Api.Results.{wait_for_execution_job}
use lecrev.Api.Results.Served.{wait-finished}
use lecrev.Artifact.Objects.{ObjectStore}
use lecrev.Api.Reads.{get_deployment_logs}
use lecrev.Api.Reads.Tenants.{deployment_logs-MayTouch}
use lecrev.Tests.Data.{World0, world, busy, version, job, env, svc}

-- A key of the tenant `acme`, under the hash that is the key itself.
abbrev key : ApiKey
key = record {
  tenant_id = "acme";
  description = "ci";
  key_hash = "secret";
  is_admin = false;
  disabled = false;
  created_at = 100;
  last_used_at = 100;
}

abbrev build_job : BuildJob
build_job = record {
  id = "b";
  function_version_id = "fv";
  target_region = "ap-south-1";
  metadata = [];
  state = "queued";
  error = "";
  logs_key = "";
  request = [];
  created_at = 100;
  updated_at = 100;
}

abbrev served : World0
served = record world {
  store = record busy { api_keys = ("secret", key) ∷ []; build_jobs = ("b", build_job) ∷ [] };
}

abbrev touched : World0
touched = record served {
  store = record served.store { api_keys = ("secret", record key { last_used_at = 700 }) ∷ [] };
}

abbrev acme : AuthContext
acme = record { tenant_id = "acme"; is_admin = false }

abbrev rival : AuthContext
rival = record { tenant_id = "rival"; is_admin = false }

authenticated : authenticate_api_key memory (λ s. s) " secret" 700 served ≡ (ok acme, touched)
unfolding authenticate_api_key memory lecrev.Prelude.Text.trim_space get put
    lecrev.Store.Projects.get_api_key_by_hash lecrev.Store.Projects.touch_api_key_last_used
authenticated = refl

authenticate-stored_example :
    (found : ApiKey) × (get served.store.api_keys (lecrev.Prelude.Text.trim_space " secret")
      ≡ some found)
    × (found.disabled ≡ false)
    × (acme ≡ record { tenant_id = found.tenant_id; is_admin = found.is_admin })
    × (touched ≡ record served {
      store = record served.store {
        api_keys =
            put served.store.api_keys
              (lecrev.Prelude.Text.trim_space " secret")
              (record found { last_used_at = 700 });
      };
    })
authenticate-stored_example =
    authenticate-stored (λ s. s) " secret" 700 served {ctx = acme} {w' = touched} authenticated

abbrev demo : Project
demo = record { id = "demo"; tenant_id = "acme"; name = "Demo"; created_at = 100 }

ensured : ensure_authorized_project memory acme "demo" "Demo" 700 served ≡ (ok demo, served)
unfolding ensure_authorized_project memory get lecrev.Store.Projects.get_project
ensured = refl

ensure-own_example :
    ((false ≡ true) ⊎ (demo.tenant_id ≡ "acme"))
    × ((get served.store.projects "demo" ≡ none)
        ⊎ ((get served.store.projects "demo" ≡ some demo) × (served ≡ served)))
ensure-own_example = ensure-own acme "demo" "Demo" 700 served {p = demo} {w' = served} ensured

authorized : authorized_build_job memory acme "b" served ≡ (ok (build_job, version), served)
unfolding authorized_build_job lecrev.Api.Auth.authorize_project lecrev.Api.Auth.authorized_project
    memory get lecrev.Store.Projects.get_project lecrev.Store.Artifacts.get_build_job
    lecrev.Store.Artifacts.get_function_version
authorized = refl

authorized_build_job-MayTouch_example :
    (served ≡ served)
    × (get served.store.build_jobs "b" ≡ some build_job)
    × (get served.store.functions "fv" ≡ some version)
    × MayTouch acme served.store "demo"
authorized_build_job-MayTouch_example =
    authorized_build_job-MayTouch acme "b" served {r = (build_job, version)} {w' = served}
      authorized

-- A deployment whose build has logs, and that was not invoked yet.
abbrev built : FunctionVersion
built = record version { build_job_id = "b" }

abbrev deployed : World0
deployed = record served {
  store = record served.store {
    functions = ("fv", built) ∷ [];
    build_jobs = ("b", record build_job { logs_key = "l" }) ∷ [];
    execution_jobs = [];
  };
}

abbrev logs : ObjectStore World0
logs = record { put_object = λ key bytes. pure tt; get_object = λ key. pure (5 ∷ []) }

shown :
    get_deployment_logs memory memory_job_lists logs acme (λ bytes. none) "fv" deployed
    ≡ (ok (5 ∷ []), deployed)
unfolding get_deployment_logs memory_job_lists lecrev.Api.Reads.load_authorized_deployment
    lecrev.Api.Auth.authorized_project lecrev.Api.Deployments.first_job memory get
    lecrev.Store.Projects.get_project lecrev.Store.Artifacts.get_build_job
    lecrev.Store.Artifacts.get_function_version lecrev.Store.Jobs.list_execution_jobs_by_project
    lecrev.Sorting.sort_stable lecrev.Maps.values lecrev.Prelude.Text.trim_space
shown = refl

deployment_logs-MayTouch_example :
    (v : FunctionVersion) × (get deployed.store.functions "fv" ≡ some v)
    × MayTouch acme deployed.store v.project_id
deployment_logs-MayTouch_example =
    deployment_logs-MayTouch logs acme (λ bytes. none) "fv" deployed {bytes = 5 ∷ []}
      {w' = deployed} shown

stored_version : get served.store.functions "fv" ≡ some version
unfolding get
stored_version = refl

stored_project : get served.store.projects "demo" ≡ some demo
unfolding get
stored_project = refl

invoke-foreign_example :
    invoke_function (with_memory svc) rival "fv" (ok ([], "")) "" env served
    ≡ (failure 403 "access denied", served)
invoke-foreign_example =
    invoke-foreign svc rival "fv" (ok ([], "")) "" env served version demo refl stored_version refl
      stored_project refl refl

abbrev trigger : HttpTrigger
trigger = record {
  token = "t1";
  project_id = "demo";
  function_version_id = "fv";
  description = "hook";
  auth_mode = HttpTriggerAuthMode.api_key;
  enabled = true;
  created_at = 700;
}

abbrev triggered : World0
triggered = record served { store = record served.store { http_triggers = ("t1", trigger) ∷ [] } }

made :
    create_http_trigger (with_memory svc) acme "fv" "" "hook" "api_key" (ok "t1") 700 served
    ≡ (ok trigger, triggered)
unfolding create_http_trigger lecrev.Api.Auth.authorized_version lecrev.Api.Auth.authorize_project
    lecrev.Api.Auth.authorized_project memory get put lecrev.Store.Projects.get_project
    lecrev.Store.Artifacts.get_function_version lecrev.Store.Triggers.put_http_trigger
    lecrev.Prelude.Text.trim_space lecrev.Api.Text.normalize_http_trigger_auth_mode
made = refl

create_http_trigger-MayTouch_example :
    ((v : FunctionVersion) × (get served.store.functions "fv" ≡ some v)
      × ("fv" ≡ v.id)
      × ("demo" ≡ v.project_id)
      × MayTouch acme served.store v.project_id)
    × (get triggered.store.http_triggers "t1" ≡ some trigger)
    × (get served.store.http_triggers "t1" ≡ none)
create_http_trigger-MayTouch_example =
    create_http_trigger-MayTouch svc acme "fv" "" "hook" "api_key" (ok "t1") 700 served
      {t = trigger} {w' = triggered} made

abbrev deployment : String → ℕ → DeploymentSummary
deployment id created_at = record {
  id = id;
  project_id = "demo";
  project_name = "Demo";
  function_version_id = id;
  name = "echo";
  runtime = "node22";
  source_type = SourceType.bundle;
  environment = "production";
  branch = "";
  commit_sha = "";
  git_url = "";
  status = "ready";
  function_state = FunctionState.ready;
  regions = [];
  build = none;
  last_job = none;
  created_at = created_at;
  updated_at = created_at;
}

abbrev deployments : List DeploymentSummary
deployments = deployment "a" 100 ∷ deployment "b" 300 ∷ deployment "c" 300 ∷ []

listing-IsSorted_example :
    let listed = list_deployments (λ s. s) deployments "ready" "" 2 in
    (length listed ≤ 2)
    × IsSorted newer listed
    × All (λ d. In d deployments × (keeps (λ s. s) "ready" "" d ≡ true)) listed
listing-IsSorted_example = listing-IsSorted (λ s. s) deployments "ready" "" 2

normalize_project_id-Clean_example :
    Clean true (normalize_project_id "" "  My Shop -- 2!")
    × EndsPlain (normalize_project_id "" "  My Shop -- 2!")
normalize_project_id-Clean_example = normalize_project_id-Clean "" "  My Shop -- 2!"

-- A job that is running at the first two polls and has succeeded at the third.
abbrev seen : ℕ → Result ExecutionJob
seen zero = ok (job "j" JobState.running 200)
seen (suc zero) = ok (job "j" JobState.running 250)
seen (suc (suc k)) = ok (job "j" JobState.succeeded 300)

readable : (i : ℕ) → (earlier : ExecutionJob) × (seen i ≡ ok earlier)
readable zero = (job "j" JobState.running 200, refl)
readable (suc zero) = (job "j" JobState.running 250, refl)
readable (suc (suc k)) = (job "j" JobState.succeeded 300, refl)

wait-finished_example :
    (found : ExecutionJob) × (wait_for_execution_job 5 seen ≡ (none, some found))
    × (job_finished found.state ≡ true)
wait-finished_example =
    wait-finished 5 2 seen (job "j" JobState.succeeded 300) (omega arith) refl refl
      (λ i h. readable i)
