-- ===== src/Build/Create.antt =====
-- internal/build/service.go: CreateFunctionVersion, with its quota and its idempotency keys.
pub mod Quota
pub mod Replay
use Prim.Native.String.{◌++◌}
use lecrev.Prelude.{
  String, Bool, not, ◌||◌, List, [], ◌∷◌, Option, none, some, leb, ◌==◌, if◌then◌else◌, str_eq,
}
use lecrev.Prelude.Int.{pos_part}
use lecrev.Prelude.Utf8.{utf8}
use lecrev.Errors.{
  Error, Result, Exec, ok, err, pure, raise, outcome, lift, ◌>>=◌, ◌>>◌, wrapped, is_already_exists,
  idempotency_conflict, idempotency_in_progress, project_build_quota,
}
use lecrev.Domain.{
  Time, Bytes, DeployRequest, FunctionVersion, FunctionState, BuildJob, NetworkPolicy, SourceType,
  IdempotencyRecord, IdempotencyStatus,
}
use lecrev.Artifact.{build_logs_key}
use lecrev.Scheduler.Admission.{is_completed}
use lecrev.Build.State.{Service, Env, BuildAssignment}
use lecrev.Build.Requests.{normalize_deploy_request}
use lecrev.Build.Metadata.{
  build_metadata_for_request, pick_build_region, sanitize_deploy_request_for_storage,
}
use lecrev.Build.Process.{mark_build_failed, process_build_job}

-- The texts of an accepted request as the constants they are.
abbrev pub policy_of : String → NetworkPolicy
policy_of text =
    if str_eq text "none"
    then NetworkPolicy.no_network
    else if str_eq text "allowlist"
    then NetworkPolicy.allowlist
    else NetworkPolicy.full

abbrev pub source_type_of : String → SourceType
source_type_of text = if str_eq text "git" then SourceType.git else SourceType.bundle

abbrev pub building_version : DeployRequest → String → String → Time → FunctionVersion
building_version req version_id build_job_id now = record {
  id = version_id;
  project_id = req.project_id;
  name = req.name;
  runtime = req.runtime;
  entrypoint = req.entrypoint;
  memory_mb = pos_part req.memory_mb;
  timeout_sec = pos_part req.timeout_sec;
  network_policy = policy_of req.network_policy;
  regions = req.regions;
  env_vars = req.env_vars;
  env_refs = req.env_refs;
  max_retries = pos_part req.max_retries;
  build_job_id = build_job_id;
  source_type = source_type_of req.source.source_type;
  artifact_digest = "";
  state = FunctionState.building;
  created_at = now;
}

abbrev pub deploy_record : String → String → String → Time → IdempotencyRecord
deploy_record project_id key request_hash now = record {
  scope = "deploy";
  project_id = project_id;
  key = key;
  request_hash = request_hash;
  resource_id = "";
  resource = "function_version";
  status = IdempotencyStatus.pending;
  created_at = now;
  updated_at = now;
}

module _ {S : Type 0} (svc : Service S) where
  open svc use {db}

  unfoldable pub enforce_build_quota : String → Exec S (Unit {0})
  enforce_build_quota project_id =
      let limit = svc.max_active_build_jobs_per_project in
      if limit == 0 then pure tt else do
        count ← db.count_build_jobs_by_project_states project_id ("queued" ∷ ("running" ∷ []))
        if leb limit count then raise (project_build_quota project_id count limit) else pure tt

  abbrev queued_build : DeployRequest → Bytes → Env → BuildJob
  queued_build req request env = record {
    id = env.uuid 1;
    function_version_id = env.uuid 0;
    target_region = pick_build_region req.regions;
    metadata = build_metadata_for_request svc req;
    state = "queued";
    error = "";
    logs_key = build_logs_key (env.uuid 1);
    request = request;
    created_at = env.now 4;
    updated_at = env.now 4;
  }

  abbrev queued_log : BuildJob → Env → String
  queued_log job env =
      "["
      ++ (env.stamp 0
          ++ ("] build job "
              ++ (job.id
                  ++ (" queued for function version "
                      ++ (job.function_version_id
                          ++ (" in region " ++ (job.target_region ++ "\n")))))))

  unfoldable pub initialize_build : DeployRequest → Env → Exec S (FunctionVersion × BuildJob)
  initialize_build req env = do
    request ← lift (svc.marshal req)
    let version = building_version req (env.uuid 0) (env.uuid 1) (env.now 4)
    let job = queued_build req request env
    db.put_function_version version
    db.put_build_job job
    svc.objects.put_object job.logs_key (utf8 (queued_log job env))
    pure (version, job)

  -- The bus's answer; the failure to record a failure is not told.
  abbrev published : Env → FunctionVersion → BuildJob → Result (Unit {0}) → Exec S FunctionVersion
  published env version job (ok u) s = (ok version, s)
  published env version job (err e) s =
      let marked =
        mark_build_failed svc version job (env.now 5) (wrapped "publish build job: " e "") s in
      (err e, marked.1)

  abbrev hand_over :
      Env
      → FunctionVersion
      → BuildJob
      → Option (String → BuildAssignment → Exec S (Unit {0}))
      → Exec S FunctionVersion
  hand_over env version job (some publish) = do
    answer ← outcome (publish job.target_region (record { build_job_id = job.id }))
    published env version job answer
  hand_over env version job none = do
    process_build_job svc env job.id
    db.get_function_version version.id

  unfoldable pub create_version : DeployRequest → Env → Exec S FunctionVersion
  unfolding enforce_build_quota initialize_build
  create_version req env = do
    accepted ← lift (normalize_deploy_request req)
    enforce_build_quota accepted.project_id
    made ← initialize_build accepted env
    hand_over env made.0 made.1 svc.publish_build

  unfoldable pub deploy_request_hash : DeployRequest → Result String
  deploy_request_hash req =
      svc.hash_request
        (record (sanitize_deploy_request_for_storage svc req) { idempotency_key = "" })

  unfoldable pub replay_function_version : String → String → String → Exec S FunctionVersion
  replay_function_version project_id key request_hash = do
    r ← db.get_idempotency_record "deploy" project_id key
    if not (str_eq r.request_hash request_hash)
        then raise idempotency_conflict
        else if not (is_completed r.status) || str_eq r.resource_id ""
        then raise idempotency_in_progress
        else db.get_function_version r.resource_id

  -- What follows the attempt to create: the record is dropped or completed.
  abbrev settle_deploy : IdempotencyRecord → Time → Result FunctionVersion → Exec S FunctionVersion
  settle_deploy r now (err e) = do
    _ ← outcome (db.delete_idempotency_record r.scope r.project_id r.key)
    raise e
  settle_deploy r now (ok version) = do
    db.update_idempotency_record (record r {
      resource_id = version.id;
      status = IdempotencyStatus.completed;
      updated_at = now;
    })
    pure version

  abbrev recorded :
      DeployRequest → IdempotencyRecord → Env → Result (Unit {0}) → Exec S FunctionVersion
  recorded req r env (err e) =
      if is_already_exists e
      then replay_function_version req.project_id req.idempotency_key r.request_hash
      else raise e
  recorded req r env (ok u) = do
    result ← outcome (create_version req env)
    settle_deploy r (env.now 7) result

  unfoldable pub create_function_version_idempotent : DeployRequest → Env → Exec S FunctionVersion
  unfolding create_version replay_function_version
  create_function_version_idempotent req env = do
    request_hash ← lift (deploy_request_hash req)
    let r = deploy_record req.project_id req.idempotency_key request_hash (env.now 6)
    answer ← outcome (db.create_idempotency_record r)
    recorded req r env answer

  unfoldable pub create_function_version : DeployRequest → Env → Exec S FunctionVersion
  unfolding create_function_version_idempotent create_version
  create_function_version req env =
      if str_eq req.idempotency_key ""
      then create_version req env
      else create_function_version_idempotent req env
