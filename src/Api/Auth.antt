-- ===== src/Api/Auth.antt =====
-- internal/httpapi/server.go: API keys, the tenant of a request, and the projects it may touch.
pub mod Tenants
use lecrev.Prelude.{String, Bool, not, ◌||◌, ◌&&◌, Option, none, some, if◌then◌else◌, str_eq}
use lecrev.Prelude.Text.{trim_space}
use lecrev.Errors.{
  Error, Result, Exec, ok, err, pure, raise, outcome, ◌>>=◌, ◌>>◌, is_not_found, access_denied,
  other,
}
use lecrev.Domain.{
  Time, ApiKey, Project, FunctionVersion, BuildJob, ExecutionJob, HttpTrigger, HttpTriggerAuthMode,
}
use lecrev.Store.Backend.{Backend}

-- authContext: the tenant that a request's key belongs to. A request without a key has the zero one.
pub record AuthContext : Type 0 where
  pub tenant_id : String
  pub is_admin : Bool

abbrev pub no_auth_context : AuthContext
no_auth_context = record { tenant_id = ""; is_admin = Bool.false }

abbrev pub missing_api_key : Error
missing_api_key = other "missing api key"

abbrev pub invalid_api_key : Error
invalid_api_key = other "invalid api key"

-- The SHA-256 of a key, in hexadecimal, is a parameter.
module _ {S : Type 0} (db : Backend S) (hash : String → String) where
  abbrev key_found : String → Time → Result ApiKey → Exec S AuthContext
  key_found key_hash now (err e) = raise (if is_not_found e then invalid_api_key else e)
  key_found key_hash now (ok key) =
      if key.disabled || not (str_eq key.key_hash key_hash) then raise invalid_api_key else do
        _ ← outcome (db.touch_api_key_last_used key_hash now)
        pure (record { tenant_id = key.tenant_id; is_admin = key.is_admin })

  unfoldable pub authenticate_api_key : String → Time → Exec S AuthContext
  authenticate_api_key raw now =
      let key = trim_space raw in
      if str_eq key ""
      then raise missing_api_key
      else do found ← outcome (db.get_api_key_by_hash (hash key)); key_found (hash key) now found

  -- The context that an HTTP trigger's invocation runs under; `raw` is the request's key.
  unfoldable pub auth_context_for_http_trigger :
      AuthContext → HttpTriggerAuthMode → String → Time → Exec S AuthContext
  unfolding authenticate_api_key
  auth_context_for_http_trigger ctx HttpTriggerAuthMode.no_auth raw now = pure ctx
  auth_context_for_http_trigger ctx HttpTriggerAuthMode.api_key raw now =
      authenticate_api_key raw now

module _ {S : Type 0} (db : Backend S) (auth : AuthContext) where
  abbrev foreign : Project → Bool
  foreign project = not auth.is_admin && not (str_eq project.tenant_id auth.tenant_id)

  unfoldable pub authorized_project : String → Exec S Project
  authorized_project project_id = do
    project ← db.get_project project_id
    if foreign project then raise access_denied else pure project

  unfoldable pub authorize_project : String → Exec S (Unit {0})
  unfolding authorized_project
  authorize_project project_id = authorized_project project_id >> pure tt

  abbrev ensured : String → String → Time → Result Project → Exec S Project
  ensured project_id name now (ok project) =
      if foreign project then raise access_denied else pure project
  ensured project_id name now (err e) =
      if is_not_found e then db.ensure_project project_id auth.tenant_id name now else raise e

  unfoldable pub ensure_authorized_project : String → String → Time → Exec S Project
  ensure_authorized_project project_id name now = do
    found ← outcome (db.get_project project_id)
    ensured project_id name now found

  unfoldable pub require_admin : Exec S (Unit {0})
  require_admin = if auth.is_admin then pure tt else raise access_denied

  unfoldable pub authorized_job : String → Exec S ExecutionJob
  unfolding authorize_project
  authorized_job job_id = do
    job ← db.get_execution_job job_id
    authorize_project job.project_id
    pure job

  unfoldable pub authorized_build_job : String → Exec S (BuildJob × FunctionVersion)
  unfolding authorize_project
  authorized_build_job job_id = do
    job ← db.get_build_job job_id
    version ← db.get_function_version job.function_version_id
    authorize_project version.project_id
    pure (job, version)

  unfoldable pub authorized_version : String → Exec S FunctionVersion
  unfolding authorize_project
  authorized_version version_id = do
    version ← db.get_function_version version_id
    authorize_project version.project_id
    pure version
