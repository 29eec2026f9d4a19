-- ===== src/Tests/Data.antt =====
-- Records that the tests share.
use lecrev.Prelude.{ℕ, ◌+◌, String, [], ◌∷◌, none, true, false}
use lecrev.Prelude.Int.{ℤ, pos}
use lecrev.Errors.{ok, pure}
use lecrev.Store.Backend.{World, memory}
use lecrev.Scheduler.{Dispatcher, Service, Env}
use lecrev.Scheduler.Admission.{queued_job}
use lecrev.Coordinator.{AssignmentState, AssignmentUpdate, Coordinator, Session, Link, no_stats}
use lecrev.Coordinator.Node.{Node}
use lecrev.Domain.{
  ExecutionJob, JobState, IdempotencyRecord, IdempotencyStatus, HttpTrigger, HttpTriggerAuthMode,
  WarmPool, FunctionVersion, NetworkPolicy, SourceType, FunctionState, Host, HostState, Assignment,
}
use lecrev.Store.{Store, empty}

abbrev pub job : String → JobState → ℕ → ExecutionJob
job id state updated = record {
  id = id;
  function_version_id = "fv";
  project_id = "demo";
  target_region = "";
  state = state;
  payload = [];
  max_retries = 2;
  attempt_count = 0;
  last_attempt_id = "";
  error = "";
  result = none;
  created_at = 100;
  updated_at = updated;
}

abbrev pub version : FunctionVersion
version = record {
  id = "fv";
  project_id = "demo";
  name = "echo";
  runtime = "node22";
  entrypoint = "index.mjs";
  memory_mb = 128;
  timeout_sec = 10;
  network_policy = NetworkPolicy.no_network;
  regions = "ap-south-1" ∷ [];
  env_vars = [];
  env_refs = [];
  max_retries = 2;
  build_job_id = "";
  source_type = SourceType.bundle;
  artifact_digest = "sha";
  state = FunctionState.ready;
  created_at = 100;
}

-- Two waiting jobs and a running one; the second was updated first.
abbrev pub busy : Store
busy = record empty {
  execution_jobs =
      ("a", job "a" JobState.queued 300)
      ∷ ("b", job "b" JobState.retrying 200)
      ∷ ("c", job "c" JobState.running 100)
      ∷ [];
  functions = ("fv", version) ∷ [];
  projects =
      ("demo", record { id = "demo"; tenant_id = "acme"; name = "Demo"; created_at = 100 }) ∷ [];
}

abbrev pub idempotency_record : String → String → IdempotencyRecord
idempotency_record project key = record {
  scope = "invoke";
  project_id = project;
  key = key;
  request_hash = "h";
  resource_id = "";
  resource = "execution_job";
  status = IdempotencyStatus.pending;
  created_at = 100;
  updated_at = 100;
}

abbrev pub trigger : String → HttpTrigger
trigger version_id = record {
  token = "t1";
  project_id = "demo";
  function_version_id = version_id;
  description = "";
  auth_mode = HttpTriggerAuthMode.no_auth;
  enabled = true;
  created_at = 100;
}

abbrev pub pool : String → WarmPool
pool host = record {
  region = "r";
  host_id = host;
  function_version_id = "fv";
  blank_warm = pos 0;
  function_warm = pos 2;
  updated_at = 100;
}

-- A service over the in-memory store of `busy`, with a region that takes every assignment.
abbrev pub World0 : Type 0
World0 = World (Unit {0})

abbrev pub world : World0
world = record { store = busy; rest = tt }

abbrev pub welcoming : Dispatcher World0
welcoming = record {
  region = "ap-south-1";
  stats = λ w. no_stats;
  enqueue_execution = λ a. pure tt;
  execute_direct = none;
  execute_direct_stream = none;
  prepare_function_warm = none;
}

abbrev pub svc : Service World0
svc = record {
  db = memory;
  dispatchers = ("ap-south-1", welcoming) ∷ [];
  scheduling_timeout = 10000000000;
  healthy_within = 15000000000;
  max_active_execution_jobs_per_project = 4;
  request_hash = λ id payload. ok id;
}

abbrev pub env : Env
env = record { now = λ k. 500 + k; rank_now = λ k. 600; uuid = λ k. "u0" }

abbrev pub queued : ExecutionJob
queued = queued_job version [] 500 "j1"

-- A region's coordinator with two hosts, one of them warm.
abbrev pub host : String → ℤ → Host
host id slots = record {
  id = id;
  region = "ap-south-1";
  driver = "firecracker";
  state = HostState.active;
  available_slots = slots;
  available_full_network_slots = pos 0;
  blank_warm = pos 1;
  function_warm = ("fv", pos 1) ∷ [];
  last_heartbeat = 400;
}

abbrev pub session : String → ℤ → Session
session id slots = record { host = host id slots; link = Link.embedded []; prepares = true }

abbrev pub coordinator : Coordinator
coordinator = record {
  region = "ap-south-1";
  stale_host_after = 0;
  has_retryer = true;
  hosts = ("h1", session "h1" (pos 1)) ∷ ("h2", session "h2" (pos 3)) ∷ [];
  direct_invokes = ("a1", record { canceled = false }) ∷ [];
  channels = [];
  blocked = [];
}

abbrev pub node : Node World0
node = record { self = coordinator; shared = world }

abbrev pub assignment : Assignment
assignment = record {
  attempt_id = "a2";
  job_id = "a";
  function_version_id = "fv";
  artifact_digest = "sha";
  artifact_bundle_key = "k";
  entrypoint = "index.mjs";
  env_vars = [];
  env_refs = [];
  payload = [];
  network_policy = NetworkPolicy.no_network;
  timeout_sec = 10;
  memory_mb = 128;
}

abbrev pub update : String → String → AssignmentState → AssignmentUpdate
update attempt_id job_id state = record {
  attempt_id = attempt_id;
  job_id = job_id;
  host_id = "h1";
  region = "ap-south-1";
  state = state;
  exit_code = pos 1;
  logs = [];
  output = [];
  error_message = "boom";
}
