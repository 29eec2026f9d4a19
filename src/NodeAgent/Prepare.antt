-- ===== src/NodeAgent/Prepare.antt =====
-- internal/nodeagent/service.go: prepareSnapshot, prepareDriver, and the loop of Run over the
-- coordinator's messages.
use Prim.Native.String.{◌++◌}
use lecrev.Prelude.{ℕ, String, false, [], Option, none, some, if◌then◌else◌, str_eq}
use lecrev.Prelude.Text.{trim_space}
use lecrev.Maps.{Assoc}
use lecrev.Errors.{Result, Exec, ok, err, pure}
use lecrev.Domain.{Bytes}
use lecrev.NodeAgent.State.{Service, Node, ExecutionAssignment, ExecuteRequest}
use lecrev.NodeAgent.Slots.{reserve_assignment_slots, release_assignment_slots, apply_drain}
use lecrev.NodeAgent.Bundles.{load_bundle}
use lecrev.NodeAgent.Messages.{send_heartbeat}
use lecrev.NodeAgent.Execute.{Course, execute_assignment}

pub data SnapshotKind : Type 0 where
  unspecified blank function : SnapshotKind

pub record PrepareSnapshot : Type 0 where
  pub kind : SnapshotKind
  pub function_version_id : String
  pub artifact_bundle_key : String
  pub entrypoint : String
  pub env_vars : Assoc String
  pub network_policy : String
  pub timeout_sec : ℕ
  pub memory_mb : ℕ

pub data CoordinatorMessage : Type 0 where
  registered terminate drain : CoordinatorMessage
  assignment : ExecutionAssignment → Course → CoordinatorMessage
  prepare : PrepareSnapshot → CoordinatorMessage

module _ {S : Type 0} (svc : Service S) where
  abbrev ensured : Option (Exec S (Unit {0})) → Exec S (Unit {0})
  ensured none = pure tt
  ensured (some ensure) = ensure

  unfoldable pub prepare_driver : Exec S (Unit {0})
  prepare_driver = ensured svc.driver.ensure_blank_warm

  abbrev prepare_request : PrepareSnapshot → Bytes → ExecuteRequest
  prepare_request msg bundle = record {
    attempt_id = "prepare-" ++ msg.function_version_id;
    job_id = "prepare-" ++ msg.function_version_id;
    function_id = msg.function_version_id;
    entrypoint = msg.entrypoint;
    artifact_bundle = bundle;
    payload = [];
    env = msg.env_vars;
    timeout_sec = msg.timeout_sec;
    memory_mb = msg.memory_mb;
    network_policy = msg.network_policy;
    region = svc.region;
    host_id = svc.host_id;
    enable_streaming = false;
  }

  abbrev warmed :
      PrepareSnapshot → (ExecuteRequest → Exec S (Unit {0})) → Result Bytes × Node S → Node S
  warmed msg warmer (err e, node) = node
  warmed msg warmer (ok bundle, node) = record node {
    world = (warmer (prepare_request msg bundle) node.world).1;
  }

  abbrev by_warmer : PrepareSnapshot → Option (ExecuteRequest → Exec S (Unit {0})) → Node S → Node S
  by_warmer msg none node = node
  by_warmer msg (some warmer) node =
      warmed msg warmer (load_bundle svc (trim_space msg.artifact_bundle_key) node)

  abbrev prepare_kind : PrepareSnapshot → SnapshotKind → Node S → Node S
  prepare_kind msg unspecified node = node
  prepare_kind msg blank node = record node {
    world = (ensured svc.driver.ensure_blank_warm node.world).1;
  }
  prepare_kind msg function node =
      if str_eq (trim_space msg.function_version_id) ""
      then node
      else if str_eq (trim_space msg.artifact_bundle_key) ""
      then node
      else by_warmer msg svc.driver.prepare_function_warm node

  unfoldable pub prepare_snapshot : PrepareSnapshot → Node S → Node S
  unfolding load_bundle send_heartbeat
  prepare_snapshot msg node =
      let reserved = record node {
        agent = reserve_assignment_slots msg.network_policy node.agent;
      } in
      let prepared = prepare_kind msg msg.kind reserved in
      send_heartbeat svc
        (record prepared { agent = release_assignment_slots msg.network_policy prepared.agent })

  -- One message of the loop of Run; the goroutine it starts runs to its end.
  unfoldable pub handle : CoordinatorMessage → Node S → Node S
  unfolding execute_assignment prepare_snapshot send_heartbeat
  handle registered node = node
  handle terminate node = node
  handle drain node = send_heartbeat svc (record node { agent = apply_drain node.agent })
  handle (assignment msg course) node = execute_assignment svc msg course node
  handle (prepare msg) node = prepare_snapshot msg node
