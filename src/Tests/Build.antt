-- ===== src/Tests/Build.antt =====
-- The theorems of the build service and of the buses at concrete inputs.
use lecrev.Prelude.{
  ℕ, zero, suc, ◌+◌, ◌≤◌, String, ◌≡◌, ◌≢◌, refl, ap, Bool, true, false, none, some, List, [], ◌∷◌,
  contains, arith, ◌==◌, str_eq,
}
use lecrev.Prelude.Int.{pos, ◌≤ℤ◌}
use lecrev.Prelude.Text.{trim_space}
use lecrev.Maps.{Assoc, get, put, count_if}
use lecrev.Errors.{ok, err, pure, nothing_found, project_build_quota, raise}
use lecrev.Domain.{DeployRequest, DeploySource, FunctionVersion, BuildJob}
use lecrev.Artifact.Objects.{ObjectStore, MemoryStore, memory_objects}
use lecrev.Store.Artifacts.{build_in_project}
use lecrev.Store.Backend.{World, memory}
use lecrev.Build.{Service, Env, Prepared, BuildAssignment, ReplicationRequest, with_memory}
use lecrev.Build.Requests.{normalize_deploy_request}
use lecrev.Build.Requests.Bounds.{IsAccepted, normalize-IsAccepted}
use lecrev.Build.Requests.Stable.{normalize_twice}
use lecrev.Build.Process.{process_build_job}
use lecrev.Build.Process.Outcome.{Settled, process-Settled}
use lecrev.Build.Create.{create_version, create_function_version_idempotent, building_version}
use lecrev.Build.Create.Quota.{create-refused, create-process, active_builds}
use lecrev.Build.Create.Replay.{create_twice}
use lecrev.Build.Replicate.{replicate}
use lecrev.Build.Replicate.Available.{is_available, replicate-contains}
use lecrev.Bus.Execution.{Op, publish, send, consume, receive, fire, close}
use lecrev.Regions.{default_execution_regions}
use lecrev.Regions.Normal.{AllKnown, IsUnique}
use lecrev.Tests.Data.{World0, world, busy, version, assignment}

abbrev source : DeploySource
source = record {
  source_type = "bundle";
  bundle_base64 = "";
  inline_files = ("index.mjs", "export default 1") ∷ [];
  git_url = "";
  git_ref = "";
  sub_path = "";
  labels = [];
  metadata = ("framework", "NextJS") ∷ [];
}

abbrev request : DeployRequest
request = record {
  project_id = "demo";
  name = "site";
  runtime = "";
  entrypoint = "index.mjs";
  memory_mb = pos 0;
  timeout_sec = pos 0;
  network_policy = "none";
  regions = [];
  env_vars = ("MODE", "test") ∷ [];
  env_refs = [];
  max_retries = pos 1;
  idempotency_key = "k";
  source = source;
}

abbrev accepted : DeployRequest
accepted = record request {
  runtime = "node22";
  memory_mb = pos 2048;
  timeout_sec = pos 180;
  network_policy = "full";
  regions = default_execution_regions;
}

is_accepted : normalize_deploy_request request ≡ ok accepted
unfolding normalize_deploy_request lecrev.Prelude.Text.trim_space
    lecrev.Regions.normalize_execution_regions lecrev.Regions.normalize_loop
    lecrev.Build.Requests.validate_deploy_request lecrev.Build.Requests.with_defaults
    lecrev.Build.Requests.runtime_or_default lecrev.Build.Requests.at_least
    lecrev.Build.Requests.is_website_deploy lecrev.Build.Requests.int_or
    lecrev.Build.Requests.validate_env_vars lecrev.Build.Requests.validate_env_var
    lecrev.Build.Requests.byte_length lecrev.Build.Requests.validate_env_refs
    lecrev.Build.Requests.validate_network_policy lecrev.Build.Requests.policy_or_default
    lecrev.Build.Requests.validate_source lecrev.Build.Requests.check_name
    lecrev.Build.Requests.check_name_rest lecrev.Prelude.Fold.equal_fold get
is_accepted = refl

normalize-IsAccepted_example :
    IsAccepted accepted
    × (pos 0 ≤ℤ pos 1)
    × (accepted.project_id ≢ "")
    × (trim_space accepted.name ≢ "")
    × (default_execution_regions ≢ [])
    × AllKnown default_execution_regions
    × IsUnique default_execution_regions
normalize-IsAccepted_example = normalize-IsAccepted request {out = accepted} is_accepted

normalize_twice_example : normalize_deploy_request accepted ≡ ok accepted
normalize_twice_example = normalize_twice request {out = accepted} is_accepted

abbrev prepared : Prepared
prepared = record {
  bundle = 1 ∷ 2 ∷ [];
  startup = [];
  metadata = [];
  entrypoint = "index.mjs";
  site = none;
}

abbrev builder : Service World0
builder = record {
  db = memory;
  objects = record { put_object = λ key bytes. pure tt; get_object = λ key. raise nothing_found };
  publish_build = some (λ region a. pure tt);
  warmer = none;
  replica = none;
  max_active_build_jobs_per_project = 1;
  marshal = λ r. ok [];
  unmarshal = λ bytes. ok request;
  encode_website_manifest = λ id prefix entrypoint now. ok [];
  digest_of = λ bytes. "d";
  hash_request = λ r. ok r.name;
  without_user = λ url. some url;
}

abbrev drawn : ℕ → String
drawn zero = "v0"
drawn (suc k) = "b0"

abbrev env : Env
env = record {
  now = λ k. 1000 + k;
  stamp = λ k. "t";
  uuid = drawn;
  token = λ k. ok "tok";
  prepare_build_output = λ r. ([], ok prepared);
}

abbrev build_job : String → BuildJob
build_job state = record {
  id = "b";
  function_version_id = "fv";
  target_region = "ap-south-1";
  metadata = [];
  state = state;
  error = "";
  logs_key = "";
  request = [];
  created_at = 100;
  updated_at = 100;
}

abbrev building : World World0
building = record {
  store = record busy { build_jobs = ("b", build_job "queued") ∷ [] };
  rest = world;
}

building_job : get building.store.build_jobs "b" ≡ some (build_job "queued")
unfolding get
building_job = refl

building_fv : get building.store.functions "fv" ≡ some version
unfolding get
building_fv = refl

process-Settled_example :
    let end = process_build_job (with_memory builder) env "b" building in
    Settled end.0 "b" "fv" end.1.store
process-Settled_example =
    process-Settled builder env "b" building (build_job "queued") version building_job refl refl
      building_fv refl

one_active : 1 ≤ active_builds "demo" building
unfolding count_if get build_in_project
one_active = omega arith

create-refused_example :
    create_version (with_memory builder) request env building
    ≡ (err (project_build_quota "demo" (active_builds "demo" building) 1), building)
create-refused_example =
    create-refused builder env request building {accepted = accepted} is_accepted refl one_active

abbrev base : World World0
base = record { store = busy; rest = world }

abbrev started : World World0
started = (create_version (with_memory builder) request env base).1

abbrev made : FunctionVersion
made = building_version accepted "v0" "b0" 1004

created : (create_version (with_memory builder) request env base).0 ≡ ok made
unfolding create_version lecrev.Build.Create.enforce_build_quota
    lecrev.Build.Create.initialize_build memory
    lecrev.Store.Artifacts.count_build_jobs_by_project_states
    lecrev.Store.Artifacts.put_function_version lecrev.Store.Artifacts.put_build_job get put
    count_if
created = rw is_accepted refl

create-process_example :
    let end = process_build_job (with_memory builder) env "b0" started in
    Settled end.0 "b0" "v0" end.1.store
create-process_example =
    create-process builder env (λ region a. pure tt) request base env {v = made} {w' = started} refl
      (ap (λ r. (r, started)) created)

abbrev repeated : World World0
repeated = (create_function_version_idempotent (with_memory builder) request env base).1

created_once :
    (create_function_version_idempotent (with_memory builder) request env base).0 ≡ ok made
unfolding create_function_version_idempotent lecrev.Build.Create.deploy_request_hash
    lecrev.Build.Metadata.sanitize_deploy_request_for_storage memory create_version
    lecrev.Build.Create.enforce_build_quota lecrev.Build.Create.initialize_build
    lecrev.Store.Idempotency.create_idempotency_record
    lecrev.Store.Idempotency.update_idempotency_record
    lecrev.Store.Artifacts.count_build_jobs_by_project_states
    lecrev.Store.Artifacts.put_function_version lecrev.Store.Artifacts.put_build_job get put
    count_if lecrev.Store.Idempotency.idempotency_key
created_once = rw is_accepted refl

create_twice_example :
    create_function_version_idempotent
      (with_memory builder)
      request
      (record env { uuid = λ k. "z" })
      repeated
    ≡ (ok made, repeated)
create_twice_example =
    create_twice builder (λ region a. pure tt) request env (record env { uuid = λ k. "z" }) base
      {v = made} {w' = repeated} refl refl (ap (λ r. (r, repeated)) created_once)

abbrev stores : Assoc (ObjectStore MemoryStore)
stores = ("eu", memory_objects) ∷ ("us", memory_objects) ∷ []

abbrev to_us : ReplicationRequest
to_us = record {
  bundle_key = "b";
  bundle = 1 ∷ [];
  startup_key = "s";
  startup = [];
  regions = "us" ∷ [];
}

replicated :
    replicate stores (λ k. 700) to_us [] ≡ (ok (("us", 700) ∷ []), ("b", 1 ∷ []) ∷ ("s", []) ∷ [])
unfolding replicate lecrev.Build.Replicate.replicate_loop lecrev.Artifact.Objects.memory_put get put
replicated = refl

replicate-contains_example :
    is_available (get (("us", 700) ∷ []) "eu") ≡ contains to_us.regions "eu"
replicate-contains_example =
    replicate-contains stores (λ k. 700) to_us [] "eu" {m = ("us", 700) ∷ []}
      {s' = ("b", 1 ∷ []) ∷ ("s", []) ∷ []} replicated

-- A full channel of one place, a failed handler, a close and a retry that it refuses.
abbrev ops : List Op
ops =
    publish "eu" assignment
    ∷ (send 0
        ∷ (publish "eu" assignment
            ∷ (send 0
                ∷ (consume "eu"
                    ∷ (receive 0 false ∷ (send 0 ∷ (close ∷ (receive 0 true ∷ (fire 0 ∷ [])))))))))
