-- ===== src/Domain/Records.antt =====
-- internal/domain/types.go, controlplane.go, apikey.go: the records. A time is the number of
-- nanoseconds since Go's zero time, so 0 is the zero value; counts that arrive in messages are ℤ.
use lecrev.Prelude.{ℕ, String, List, Option, Bool}
use lecrev.Prelude.Int.{ℤ}
use lecrev.Maps.{Assoc}
use lecrev.Domain.States.{
  SourceType, NetworkPolicy, FunctionState, JobState, AttemptState, StartMode, HostState,
  IdempotencyStatus, HttpTriggerAuthMode,
}

abbrev pub Time : Type 0
Time = ℕ

abbrev pub Bytes : Type 0
Bytes = List ℕ

pub record Project : Type 0 where
  pub id : String
  pub tenant_id : String
  pub name : String
  pub created_at : Time

pub record ApiKey : Type 0 where
  pub key_hash : String
  pub tenant_id : String
  pub description : String
  pub is_admin : Bool
  pub disabled : Bool
  pub created_at : Time
  pub last_used_at : Time

pub record Artifact : Type 0 where
  pub digest : String
  pub size_bytes : ℕ
  pub bundle_key : String
  pub startup_key : String
  pub regions : Assoc Time
  pub created_at : Time

pub record FunctionVersion : Type 0 where
  pub id : String
  pub project_id : String
  pub name : String
  pub runtime : String
  pub entrypoint : String
  pub memory_mb : ℕ
  pub timeout_sec : ℕ
  pub network_policy : NetworkPolicy
  pub regions : List String
  pub env_vars : Assoc String
  pub env_refs : List String
  pub max_retries : ℕ
  pub build_job_id : String
  pub source_type : SourceType
  pub artifact_digest : String
  pub state : FunctionState
  pub created_at : Time

pub record BuildJob : Type 0 where
  pub id : String
  pub function_version_id : String
  pub target_region : String
  pub metadata : Assoc String
  pub state : String
  pub error : String
  pub logs_key : String
  pub request : Bytes
  pub created_at : Time
  pub updated_at : Time

pub record JobResult : Type 0 where
  pub exit_code : ℤ
  pub logs : Bytes
  pub logs_key : String
  pub output : Bytes
  pub output_key : String
  pub host_id : String
  pub region : String
  pub started_at : Time
  pub finished_at : Time
  pub latency_ms : ℕ

pub record DirectExecutionResult : Type 0 where
  pub job_id : String
  pub attempt_id : String
  pub state : JobState
  pub error : String
  pub start_mode : StartMode
  pub result : Option JobResult
  pub finished_at : Time
  pub started_at : Time

pub record ExecutionJob : Type 0 where
  pub id : String
  pub function_version_id : String
  pub project_id : String
  pub target_region : String
  pub state : JobState
  pub payload : Bytes
  pub max_retries : ℕ
  pub attempt_count : ℕ
  pub last_attempt_id : String
  pub error : String
  pub result : Option JobResult
  pub created_at : Time
  pub updated_at : Time

pub record Attempt : Type 0 where
  pub id : String
  pub job_id : String
  pub function_version_id : String
  pub host_id : String
  pub region : String
  pub state : AttemptState
  pub start_mode : StartMode
  pub started_at : Time
  pub latency_ms : ℕ
  pub lease_expires_at : Time
  pub error : String
  pub created_at : Time
  pub updated_at : Time

pub record Host : Type 0 where
  pub id : String
  pub region : String
  pub driver : String
  pub state : HostState
  pub available_slots : ℤ
  pub available_full_network_slots : ℤ
  pub blank_warm : ℤ
  pub function_warm : Assoc ℤ
  pub last_heartbeat : Time

pub record RegionStats : Type 0 where
  pub available_hosts : ℤ
  pub available_full_network_slots : ℤ
  pub blank_warm : ℤ
  pub function_warm : ℤ

pub record Region : Type 0 where
  pub name : String
  pub state : String
  pub available_hosts : ℤ
  pub available_full_network_slots : ℤ
  pub blank_warm : ℤ
  pub function_warm : ℤ
  pub last_heartbeat_at : Time
  pub last_error : String

pub record WarmPool : Type 0 where
  pub region : String
  pub host_id : String
  pub function_version_id : String
  pub blank_warm : ℤ
  pub function_warm : ℤ
  pub updated_at : Time

pub record CostRecord : Type 0 where
  pub id : String
  pub tenant_id : String
  pub project_id : String
  pub job_id : String
  pub attempt_id : String
  pub host_id : String
  pub region : String
  pub start_mode : StartMode
  pub cpu_ms : ℕ
  pub memory_mb_ms : ℕ
  pub warm_instance_ms : ℕ
  pub data_egress_bytes : ℕ
  pub created_at : Time

pub record Assignment : Type 0 where
  pub attempt_id : String
  pub job_id : String
  pub function_version_id : String
  pub artifact_digest : String
  pub artifact_bundle_key : String
  pub entrypoint : String
  pub env_vars : Assoc String
  pub env_refs : List String
  pub payload : Bytes
  pub network_policy : NetworkPolicy
  pub timeout_sec : ℕ
  pub memory_mb : ℕ

pub record IdempotencyRecord : Type 0 where
  pub scope : String
  pub project_id : String
  pub key : String
  pub request_hash : String
  pub resource_id : String
  pub resource : String
  pub status : IdempotencyStatus
  pub created_at : Time
  pub updated_at : Time

pub record WebhookTrigger : Type 0 where
  pub token : String
  pub project_id : String
  pub function_version_id : String
  pub description : String
  pub enabled : Bool
  pub created_at : Time

pub record HttpTrigger : Type 0 where
  pub token : String
  pub project_id : String
  pub function_version_id : String
  pub description : String
  pub auth_mode : HttpTriggerAuthMode
  pub enabled : Bool
  pub created_at : Time
