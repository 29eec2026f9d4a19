-- ===== src/Coordinator/Service.antt =====
-- internal/coordinator/service.go: the struct Service, its sessions, and the messages of the
-- control stream (proto lecrev.region.v1) that it handles.
use lecrev.Prelude.{ℕ, String, Bool, List}
use lecrev.Prelude.Int.{ℤ}
use lecrev.Maps.{Assoc}
use lecrev.Domain.{Assignment, Bytes, FunctionVersion, Host}

-- What the coordinator sends to a host: the bodies of CoordinatorMessage.
pub data Message : Type 0 where
  assignment : Assignment → Message
  -- The version, the artifact's bundle key and the host that should prepare a snapshot.
  prepare : FunctionVersion → String → String → Message
  -- The host and the reason.
  drain : String → String → Message

-- Where a session's messages go: to a function in this process, or into the channel of the host's
-- control stream. The channel holds at most `capacity` messages that the stream has not taken yet.
pub data Link : Type 0 where
  embedded : List Message → Link
  channel : ℕ → List Message → Link

-- struct hostSession. An embedded host has an executor and, if `prepares`, a preparer.
pub record Session : Type 0 where
  pub host : Host
  pub link : Link
  pub prepares : Bool

-- The states and the updates that a host reports.
pub data AssignmentState : Type 0 where
  unspecified starting running succeeded failed : AssignmentState

pub record AssignmentUpdate : Type 0 where
  pub attempt_id : String
  pub job_id : String
  pub host_id : String
  pub region : String
  pub state : AssignmentState
  pub exit_code : ℤ
  pub logs : Bytes
  pub output : Bytes
  pub error_message : String

-- struct directInvokeWaiter. Its channel is the one under the attempt's id in `channels`, which
-- outlives the waiter.
pub record Waiter : Type 0 where
  pub canceled : Bool

pub record Coordinator : Type 0 where
  pub region : String
  pub stale_host_after : ℕ
  pub has_retryer : Bool
  pub hosts : Assoc Session
  pub direct_invokes : Assoc Waiter
  -- The updates that a direct invocation has not read yet.
  pub channels : Assoc (List AssignmentUpdate)
  -- The final updates that found such a channel full, each in a goroutine that waits to send it.
  pub blocked : Assoc (List AssignmentUpdate)

pub record RegisterHost : Type 0 where
  pub host_id : String
  pub region : String
  pub driver : String
  pub available_slots : ℤ
  pub available_full_network_slots : ℤ
  pub blank_warm : ℤ
  pub function_warm : List (String × ℤ)

pub record HostHeartbeat : Type 0 where
  pub host_id : String
  pub available_slots : ℤ
  pub available_full_network_slots : ℤ
  pub blank_warm : ℤ
  pub function_warm : List (String × ℤ)
