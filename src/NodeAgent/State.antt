-- ===== src/NodeAgent/State.antt =====
-- internal/nodeagent/service.go, internal/firecracker/driver.go: the struct Service, its Config, and
-- the driver, object store and secrets that it is given. The numbers of slots are never negative.
use lecrev.Prelude.{ℕ, String, Bool, List, [], Option, ltb, if◌then◌else◌, str_eq}
use lecrev.Prelude.Int.{ℤ, pos, ltb_ℤ, pos_part}
use lecrev.Prelude.Text.{trim_space}
use lecrev.Maps.{Assoc}
use lecrev.Errors.{Error, Exec}
use lecrev.Domain.{Bytes}
use lecrev.Artifact.Objects.{ObjectStore}
use lecrev.Coordinator.{AssignmentUpdate, HostHeartbeat}

pub record Config : Type 0 where
  pub max_concurrent_assignments : ℤ
  pub max_concurrent_full_network_jobs : ℤ

abbrev pub or_positive : ℤ → ℕ → ℕ
or_positive n default = if ltb_ℤ (pos 0) n then pos_part n else default

-- withDefaults, at runtime.NumCPU().
unfoldable pub with_defaults : Config → ℕ → ℕ × ℕ
with_defaults c cpus =
    let assignments = or_positive c.max_concurrent_assignments 4 in
    let host_cpus = or_positive (pos cpus) 1 in
    let full = or_positive c.max_concurrent_full_network_jobs host_cpus in
    (assignments, if ltb assignments full then assignments else full)

pub record ExecutionAssignment : Type 0 where
  pub attempt_id : String
  pub job_id : String
  pub function_version_id : String
  pub artifact_bundle_key : String
  pub entrypoint : String
  pub env_vars : Assoc String
  pub env_refs : List String
  pub payload : Bytes
  pub network_policy : String
  pub timeout_sec : ℕ
  pub memory_mb : ℕ

pub record ExecuteRequest : Type 0 where
  pub attempt_id : String
  pub job_id : String
  pub function_id : String
  pub entrypoint : String
  pub artifact_bundle : Bytes
  pub payload : Bytes
  pub env : Assoc String
  pub timeout_sec : ℕ
  pub memory_mb : ℕ
  pub network_policy : String
  pub region : String
  pub host_id : String
  pub enable_streaming : Bool

pub record ExecuteResult : Type 0 where
  pub exit_code : ℤ
  pub logs : String
  pub platform_trace : String
  pub output : Bytes

pub record WarmInventory : Type 0 where
  pub blank_warm : ℤ
  pub function_warm : Assoc ℤ

-- What Execute or ExecuteDeferred returns; plain drivers have nothing to clean up.
pub record Outcome (S : Type 0) : Type 0 where
  pub result : Option ExecuteResult
  pub error : Option Error
  pub clean : S → S

-- firecracker.Driver, with the optional interfaces that the code finds by type assertion.
pub record Driver (S : Type 0) : Type 0 where
  pub name : String
  pub execute : ExecuteRequest → S → Outcome S × S
  pub warm_inventory_for_slots : Option (ℕ → S → WarmInventory)
  pub warm_inventory : Option (S → WarmInventory)
  pub prepare_function_warm : Option (ExecuteRequest → Exec S (Unit {0}))
  pub ensure_blank_warm : Option (Exec S (Unit {0}))

-- What an agent is built from; `resolve_execution` takes the host, the region, the version and the
-- references.
pub record Service (S : Type 0) : Type 0 where
  pub host_id : String
  pub region : String
  pub driver : Driver S
  pub objects : ObjectStore S
  pub resolve_execution : String → String → String → List String → Exec S (Assoc String)

-- The agent's own state.
pub record Agent : Type 0 where
  pub max_slots : ℕ
  pub max_full_network : ℕ
  pub available_slots : ℕ
  pub available_full : ℕ
  pub blank_warm : ℕ
  pub function_warm : Assoc ℕ
  pub bundle_cache : Assoc Bytes

-- func NewWithConfig, for the state.
unfoldable pub new : Config → ℕ → Agent
unfolding with_defaults
new c cpus =
    let (assignments, full) = with_defaults c cpus in
    record {
      max_slots = assignments;
      max_full_network = full;
      available_slots = assignments;
      available_full = full;
      blank_warm = 1;
      function_warm = [];
      bundle_cache = [];
    }

unfoldable pub driver_name : {S : Type 0} → Driver S → String
driver_name driver =
    if str_eq (trim_space driver.name) "" then "unknown" else trim_space driver.name

-- What goes to the coordinator.
pub data Sent : Type 0 where
  update : AssignmentUpdate → Sent
  heartbeat : HostHeartbeat → Sent

-- The agent, the rest of the host, and what was sent, the last message first.
pub record Node (S : Type 0) : Type 0 where
  pub agent : Agent
  pub world : S
  pub sent : List Sent
  -- A panic, which no code recovers from, has ended the process.
  pub panicked : Bool
