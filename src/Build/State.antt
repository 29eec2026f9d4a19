-- ===== src/Build/State.antt =====
-- internal/build/service.go, bus.go, nextsite.go: the struct Service, what it is given, the records
-- that pass between its steps, and the clock, identifiers and tokens that a call draws.
use lecrev.Prelude.{ℕ, String, List, Option, none, some}
use lecrev.Maps.{Assoc}
use lecrev.Errors.{Result, Exec}
use lecrev.Domain.{Time, Bytes, DeployRequest, FunctionVersion, BuildJob}
use lecrev.Artifact.Objects.{ObjectStore}
use lecrev.Store.Backend.{Backend, World, memory}

pub record BuildAssignment : Type 0 where
  pub build_job_id : String

pub record ReplicationRequest : Type 0 where
  pub bundle_key : String
  pub bundle : Bytes
  pub startup_key : String
  pub startup : Bytes
  pub regions : List String

pub record StaticAsset : Type 0 where
  pub path : String
  pub content : Bytes

pub record PreparedSite : Type 0 where
  pub framework : String
  pub bundle_root : String
  pub entrypoint : String
  pub static_assets : List StaticAsset

-- preparedBuildOutput, without the function that removes its temporary directory.
pub record Prepared : Type 0 where
  pub bundle : Bytes
  pub startup : Bytes
  pub metadata : Assoc String
  pub entrypoint : String
  pub site : Option PreparedSite

pub record Service (S : Type 0) : Type 0 where
  pub db : Backend S
  pub objects : ObjectStore S
  -- PublishBuild of the bus, if the service has one.
  pub publish_build : Option (String → BuildAssignment → Exec S (Unit {0}))
  pub warmer : Option (FunctionVersion → Exec S (Unit {0}))
  pub replica : Option (ReplicationRequest → Exec S (Assoc Time))
  pub max_active_build_jobs_per_project : ℕ
  -- encoding/json on a request.
  pub marshal : DeployRequest → Result Bytes
  pub unmarshal : Bytes → Result DeployRequest
  -- encodeWebsiteManifest, which is encoding/json on a version, a prefix, an entrypoint and a time.
  pub encode_website_manifest : String → String → String → Time → Result Bytes
  -- The SHA-256 of a bundle, and of a request's JSON, in hexadecimal.
  pub digest_of : Bytes → String
  pub hash_request : DeployRequest → Result String
  -- net/url: the address printed without its user, if it is one.
  pub without_user : String → Option String

-- What one call reads from outside: the k-th reading of the clock, the text of the time at the k-th
-- line of a log, the k-th identifier and token it draws, and what prepareBuildOutput makes of a
-- request, with the lines it records.
pub record Env : Type 0 where
  pub now : ℕ → Time
  pub stamp : ℕ → String
  pub uuid : ℕ → String
  pub token : ℕ → Result String
  pub prepare_build_output : DeployRequest → List String × Result Prepared

-- A build under way: the version and the job that it changes, and its recorder.
pub record Run (S : Type 0) : Type 0 where
  pub world : S
  pub version : FunctionVersion
  pub job : BuildJob
  pub log : String
  pub lines : ℕ

abbrev pub on_world {ℓ} : {S : Type 0} {A : Type ℓ} → Exec S A → Exec (Run S) A
on_world m run = let (r, s) = m run.world in (r, record run { world = s })

abbrev pub modify : {S : Type 0} → (Run S → Run S) → Exec (Run S) (Unit {0})
modify f run = (Result.ok tt, f run)

-- The service over the in-memory store; what else it is given does not touch the store.
abbrev pub on_rest {ℓ} : {W : Type 0} {A : Type ℓ} → Exec W A → Exec (World W) A
on_rest m w = let (r, x) = m w.rest in (r, record w { rest = x })

abbrev pub map_option : {A B : Type 0} → (A → B) → Option A → Option B
map_option f none = none
map_option f (some a) = some (f a)

abbrev pub with_memory : {W : Type 0} → Service W → Service (World W)
with_memory svc = record {
  db = memory;
  objects = record {
    put_object = λ key bytes. on_rest (svc.objects.put_object key bytes);
    get_object = λ key. on_rest (svc.objects.get_object key);
  };
  publish_build = map_option (λ f region a. on_rest (f region a)) svc.publish_build;
  warmer = map_option (λ f version. on_rest (f version)) svc.warmer;
  replica = map_option (λ f request. on_rest (f request)) svc.replica;
  max_active_build_jobs_per_project = svc.max_active_build_jobs_per_project;
  marshal = svc.marshal;
  unmarshal = svc.unmarshal;
  encode_website_manifest = svc.encode_website_manifest;
  digest_of = svc.digest_of;
  hash_request = svc.hash_request;
  without_user = svc.without_user;
}
