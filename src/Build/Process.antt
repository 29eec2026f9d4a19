-- ===== src/Build/Process.antt =====
-- internal/build/service.go: ProcessBuildJob, from the stored job to a version that is ready or has
-- failed.
pub mod Outcome
use Prim.Native.String.{◌++◌}
use lecrev.Prelude.{String, Option, if◌then◌else◌, str_eq}
use lecrev.Prelude.Text.{trim_space}
use lecrev.Errors.{
  Error, Result, Exec, ok, err, pure, raise, outcome, ◌>>=◌, ◌>>◌, wrapped, message,
}
use lecrev.Domain.{Time, Bytes, DeployRequest, FunctionVersion, FunctionState, BuildJob}
use lecrev.Artifact.{build_logs_key}
use lecrev.Build.State.{Service, Env, Run}
use lecrev.Build.Requests.{normalize_deploy_request}
use lecrev.Build.Metadata.{sanitize_deploy_request_for_storage}
use lecrev.Build.Recorder.{printf, archive_build_logs}
use lecrev.Build.Publish.{publish}

abbrev pub failed_job : BuildJob → Time → Error → BuildJob
failed_job job now e = record job { state = "failed"; error = message e; updated_at = now }

abbrev pub failed_version : FunctionVersion → FunctionVersion
failed_version version = record version { state = FunctionState.failed }

abbrev pub or_request : Bytes → Result Bytes → Bytes
or_request request (ok sanitized) = sanitized
or_request request (err e) = request

-- A worker takes the job up: the stored request loses its credentials, and the job its last error.
abbrev pub started_job : {S : Type 0} → Service S → BuildJob → DeployRequest → Time → BuildJob
started_job svc job req now = record job {
  request = or_request job.request (svc.marshal (sanitize_deploy_request_for_storage svc req));
  state = "running";
  error = "";
  logs_key = if str_eq (trim_space job.logs_key) "" then build_logs_key job.id else job.logs_key;
  updated_at = now;
}

abbrev pub started_version : FunctionVersion → FunctionVersion
started_version version = record version {
  state = FunctionState.building;
  artifact_digest = "";
  entrypoint = "";
}

module _ {S : Type 0} (svc : Service S) where
  open svc use {db}

  unfoldable pub mark_build_failed : FunctionVersion → BuildJob → Time → Error → Exec S (Unit {0})
  mark_build_failed version job now e = do
    db.put_function_version (failed_version version)
    db.put_build_job (failed_job job now e)
    raise e

  abbrev with_archival : Error → Result (Unit {0}) → Error
  with_archival e (ok u) = e
  with_archival e (err archive_error) =
      wrapped "" e (" (build log archival failed: " ++ (message archive_error ++ ")"))

  unfoldable pub mark_build_failed_with_logs : Env → Error → Run S → Result (Unit {0}) × S
  unfolding printf archive_build_logs mark_build_failed
  mark_build_failed_with_logs env e run =
      let told = printf svc env ("build job " ++ (run.job.id ++ (" failed: " ++ message e))) run in
      let (archived, end) = archive_build_logs svc env told.1 in
      mark_build_failed end.version end.job (env.now 2) (with_archival e archived) end.world

  abbrev archival_told : Env → Result (Unit {0}) → Exec (Run S) (Unit {0})
  archival_told env (ok u) = pure tt
  archival_told env (err e) = printf svc env ("build log archival failed: " ++ message e)

  -- The log is archived, whatever becomes of it, and the job has succeeded.
  abbrev finish_as : Env → String → Exec (Run S) (Unit {0})
  finish_as env job_id = do
    printf svc env ("build job " ++ (job_id ++ " completed successfully"))
    archived ← outcome (archive_build_logs svc env)
    archival_told env archived

  unfoldable pub finish : Env → Exec (Run S) (Unit {0})
  unfolding printf archive_build_logs
  finish env run = finish_as env run.job.id run

  abbrev succeeded_job : BuildJob → Time → BuildJob
  succeeded_job job now = record job { state = "succeeded"; error = ""; updated_at = now }

  abbrev settle : Env → Result (Unit {0}) → Run S → Result (Unit {0}) × S
  settle env (err e) run = mark_build_failed_with_logs env e run
  settle env (ok u) run =
      let end = (finish env run).1 in db.put_build_job (succeeded_job end.job (env.now 2)) end.world

  abbrev announce : Env → FunctionVersion → BuildJob → DeployRequest → Exec (Run S) (Unit {0})
  announce env version job req = do
    printf svc env (
        "build job "
        ++ (job.id
            ++ (" started for function version "
                ++ (version.id ++ (" in region " ++ job.target_region)))))
    printf svc env (
        "source type="
        ++ (req.source.source_type
            ++ (" runtime=" ++ (req.runtime ++ (" entrypoint=" ++ req.entrypoint)))))

  unfoldable pub run_build : Env → DeployRequest → Run S → Result (Unit {0}) × S
  unfolding printf publish mark_build_failed_with_logs finish
  run_build env req run =
      let (result, end) =
        publish svc env run.version req (announce env run.version run.job req run).1 in
      settle env result end

  abbrev start : Env → FunctionVersion → BuildJob → Result DeployRequest → Exec S (Unit {0})
  start env version job (err e) s = mark_build_failed version job (env.now 0) e s
  start env version job (ok req) s =
      (do
        db.put_function_version (started_version version)
        db.put_build_job (started_job svc job req (env.now 0))
        (λ (s' : S). run_build env req (record {
          world = s';
          version = started_version version;
          job = started_job svc job req (env.now 0);
          log = "";
          lines = 1;
        })))
        s

  abbrev decoded : Env → FunctionVersion → BuildJob → Result DeployRequest → Exec S (Unit {0})
  decoded env version job (err e) =
      mark_build_failed version job (env.now 0) (wrapped "decode build request: " e "")
  decoded env version job (ok req) = start env version job (normalize_deploy_request req)

  unfoldable pub process_build_job : Env → String → Exec S (Unit {0})
  unfolding mark_build_failed run_build
  process_build_job env build_job_id = do
    job ← db.get_build_job build_job_id
    if str_eq job.state "succeeded" then pure tt else do
      version ← db.get_function_version job.function_version_id
      decoded env version job (svc.unmarshal job.request)
