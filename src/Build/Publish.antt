-- ===== src/Build/Publish.antt =====
-- internal/build/service.go: the part of ProcessBuildJob that makes, stores and publishes a version,
-- and the version's default HTTP trigger.
pub mod Frame
pub mod Released
use Prim.Native.String.{◌++◌}
use lecrev.Prelude.{
  ℕ, zero, suc, ◌+◌, String, List, [], ◌∷◌, Option, none, some, ltb, ◌==◌, length, if◌then◌else◌,
  true,
}
use lecrev.Prelude.Text.{decimal}
use lecrev.Maps.{Assoc, put}
use lecrev.Errors.{
  Result, Exec, ok, err, pure, raise, outcome, lift, ◌>>=◌, ◌>>◌, other, wrapped, message,
  is_already_exists,
}
use lecrev.Domain.{
  Time, Bytes, Artifact, DeployRequest, FunctionVersion, FunctionState, HttpTrigger,
  HttpTriggerAuthMode,
}
use lecrev.Artifact.{site_assets_prefix, site_asset_object_key, site_manifest_key}
use lecrev.Build.State.{
  Service, Env, Run, ReplicationRequest, Prepared, PreparedSite, StaticAsset, on_world, modify,
}
use lecrev.Build.Metadata.{merge_build_metadata}
use lecrev.Build.Recorder.{printf, print_all}

unfoldable pub bundle_key : String → String
bundle_key digest = "artifacts/" ++ (digest ++ "/bundle.tgz")

unfoldable pub startup_key : String → String
startup_key digest = "artifacts/" ++ (digest ++ "/startup.json")

abbrev pub mark_all : List String → Time → Assoc Time → Assoc Time
mark_all [] now m = m
mark_all (region ∷ regions) now m = mark_all regions now (put m region now)

abbrev pub default_trigger : FunctionVersion → String → Time → HttpTrigger
default_trigger version token now = record {
  token = token;
  project_id = version.project_id;
  function_version_id = version.id;
  description = "default public function url";
  auth_mode = HttpTriggerAuthMode.no_auth;
  enabled = true;
  created_at = now;
}

module _ {S : Type 0} (svc : Service S) (env : Env) where
  open svc use {db, objects}

  unfoldable pub prepare : DeployRequest → Exec (Run S) Prepared
  unfolding print_all
  prepare req =
      let (texts, result) = env.prepare_build_output req in print_all svc env texts >> lift result

  -- The log's line for each region.
  abbrev print_regions : String → List String → Exec (Run S) (Unit {0})
  print_regions before [] = pure tt
  print_regions before (region ∷ regions) =
      printf svc env (before ++ region) >> print_regions before regions

  -- The regions that hold the artifact: as the replicator says, or all, now.
  unfoldable pub artifact_regions :
      List String
      → ReplicationRequest
      → Option (ReplicationRequest → Exec S (Assoc Time))
      → Exec (Run S) (Assoc Time)
  unfolding printf
  artifact_regions targets request none = do
    print_regions "marked artifact available in region " targets
    pure (mark_all targets (env.now 1) [])
  artifact_regions targets request (some replicate) = do
    available ← on_world (replicate request)
    print_regions "replicated artifact into region " targets
    pure available

  unfoldable pub put_assets : String → List StaticAsset → Exec (Run S) (Unit {0})
  put_assets digest [] = pure tt
  put_assets digest (asset ∷ assets) =
      on_world (objects.put_object (site_asset_object_key digest asset.path) asset.content)
      >> put_assets digest assets

  unfoldable pub put_site : String → String → String → Option PreparedSite → Exec (Run S) (Unit {0})
  unfolding put_assets printf
  put_site version_id digest entrypoint none = pure tt
  put_site version_id digest entrypoint (some site) = do
    let prefix = site_assets_prefix digest
    put_assets digest site.static_assets
    manifest ← lift (svc.encode_website_manifest version_id prefix entrypoint (env.now 1))
    on_world (objects.put_object (site_manifest_key digest) manifest)
    printf svc env ("uploaded next.js site manifest to " ++ site_manifest_key digest)
    printf svc env (
        "uploaded "
        ++ (decimal (length site.static_assets) ++ (" next.js static assets to " ++ prefix)))

  abbrev replication_request : DeployRequest → String → Prepared → ReplicationRequest
  replication_request req digest prepared = record {
    bundle_key = bundle_key digest;
    bundle = prepared.bundle;
    startup_key = startup_key digest;
    startup = prepared.startup;
    regions = req.regions;
  }

  abbrev artifact_of : String → Prepared → Assoc Time → Artifact
  artifact_of digest prepared available = record {
    digest = digest;
    size_bytes = length prepared.bundle;
    bundle_key = bundle_key digest;
    startup_key = startup_key digest;
    regions = available;
    created_at = env.now 1;
  }

  -- The artifact goes to the object store, to the regions, and last to the store.
  unfoldable pub store_artifact : String → DeployRequest → Prepared → Exec (Run S) (Unit {0})
  unfolding printf artifact_regions put_site bundle_key startup_key
  store_artifact version_id req prepared = do
    let digest = svc.digest_of prepared.bundle
    let size = decimal (length prepared.bundle)
    printf svc env ("prepared immutable bundle digest=" ++ (digest ++ (" sizeBytes=" ++ size)))
    on_world (objects.put_object (bundle_key digest) prepared.bundle)
    on_world (objects.put_object (startup_key digest) prepared.startup)
    printf svc env (
        "uploaded bundle to "
        ++ (bundle_key digest ++ (" and startup metadata to " ++ startup_key digest)))
    available ← artifact_regions req.regions (replication_request req digest prepared) svc.replica
    put_site version_id digest prepared.entrypoint prepared.site
    on_world (db.put_artifact (artifact_of digest prepared available))

  -- What the store answered to a trigger: done, another round, or an error.
  abbrev trigger_put :
      FunctionVersion → Exec (Run S) (Unit {0}) → Result (Unit {0}) → Exec (Run S) (Unit {0})
  trigger_put version next (ok u) run =
      printf svc env ("created default public http trigger for function version " ++ version.id) run
  trigger_put version next (err e) run =
      let again = next run in
      if is_already_exists e then again else (
        err (
            wrapped ("create default http trigger for function version " ++ (version.id ++ ": ")) e
              ""),
        run,
      )

  abbrev trigger_token :
      FunctionVersion → ℕ → Exec (Run S) (Unit {0}) → Result String → Exec (Run S) (Unit {0})
  trigger_token version attempt next (err e) =
      raise (wrapped "generate default http trigger token: " e "")
  trigger_token version attempt next (ok token) = do
    answer ←
        outcome
          (on_world (db.put_http_trigger (default_trigger version token (env.now (10 + attempt)))))
    trigger_put version next answer

  -- The rounds that are left, and the number of this one.
  unfoldable pub try_tokens : ℕ → ℕ → FunctionVersion → Exec (Run S) (Unit {0})
  unfolding printf
  try_tokens zero attempt version = raise (
      other (
        "create default http trigger for function version "
        ++ (version.id ++ ": exhausted token retries")))
  try_tokens (suc left) attempt version =
      trigger_token version attempt (try_tokens left (suc attempt) version) (env.token attempt)

  abbrev triggers_listed : FunctionVersion → Result (List HttpTrigger) → Exec (Run S) (Unit {0})
  triggers_listed version (err e) =
      raise (wrapped ("list http triggers for function version " ++ (version.id ++ ": ")) e "")
  triggers_listed version (ok []) = try_tokens 3 0 version
  triggers_listed version (ok (t ∷ ts)) =
      printf svc env
        ("default public http trigger already exists for function version " ++ version.id)

  unfoldable pub ensure_default_http_trigger : FunctionVersion → Exec (Run S) (Unit {0})
  unfolding try_tokens printf
  ensure_default_http_trigger version = do
    triggers ← outcome (on_world (db.list_http_triggers_by_function_version version.id))
    triggers_listed version triggers

  abbrev warmed : FunctionVersion → Result (Unit {0}) → Exec (Run S) (Unit {0})
  warmed version (ok u) =
      printf svc env ("function warm preparation ready for function version " ++ version.id)
  warmed version (err e) =
      printf svc env
        ("warm preparation deferred for function version " ++ (version.id ++ (": " ++ message e)))

  -- No error of the warmer fails the build.
  unfoldable pub warm :
      FunctionVersion
      → List String
      → Option (FunctionVersion → Exec S (Unit {0}))
      → Exec (Run S) (Unit {0})
  unfolding printf
  warm version refs none = pure tt
  warm version [] (some prepare_version) = do
    answer ← outcome (on_world (prepare_version version))
    warmed version answer
  warm version (ref ∷ refs) (some prepare_version) = printf svc env (
      "warm preparation skipped for function version "
      ++ (version.id ++ " because envRefs are configured"))

  -- The version is ready from here on.
  unfoldable pub release : FunctionVersion → Exec (Run S) (Unit {0})
  unfolding ensure_default_http_trigger warm
  release version = do
    modify (λ run. record run { version = version })
    on_world (db.put_function_version version)
    ensure_default_http_trigger version
    warm version version.env_refs svc.warmer

  abbrev pub ready_version : FunctionVersion → Prepared → FunctionVersion
  ready_version version prepared = record version {
    artifact_digest = svc.digest_of prepared.bundle;
    entrypoint = prepared.entrypoint;
    state = FunctionState.ready;
  }

  abbrev pub size_checked : Prepared → Exec (Run S) (Unit {0})
  size_checked prepared =
      if ltb 67108864 (length prepared.bundle)
      then raise (
          other (
            "artifact size "
            ++ (decimal (length prepared.bundle) ++ " exceeds limit of 67108864 bytes")))
      else pure tt

  -- From the preparation to the last error that fails the build.
  unfoldable pub publish : FunctionVersion → DeployRequest → Exec (Run S) (Unit {0})
  unfolding prepare store_artifact release
  publish version req = do
    prepared ← prepare req
    modify (λ r. record r {
      job = record r.job { metadata = merge_build_metadata r.job.metadata prepared.metadata };
    })
    size_checked prepared
    store_artifact version.id req prepared
    release (ready_version version prepared)
