-- ===== src/NodeAgent/Execute/Lifecycle.antt =====
-- What an assignment's updates tell the coordinator, in their order.
use lecrev.Prelude.{
  zero, String, true, ◌≡◌, ◌≢◌, ◌⊎◌, List, [], ◌∷◌, Option, none, some, if◌then◌else◌, str_eq,
}
use lecrev.Prelude.Int.{ℤ, pos}
use lecrev.Maps.{Assoc}
use lecrev.Errors.{ok}
use lecrev.Coordinator.{AssignmentState}
use lecrev.NodeAgent.State.{Service, Node, ExecutionAssignment, Sent, update, heartbeat}

-- The stages of an attempt as the updates announce them: it is starting, it runs, and it ends once.
-- A tick may come behind the end.
pub data Stage : Type 0 where
  idle started running ended : Stage

abbrev pub advance : AssignmentState → ℤ → Option Stage → Option Stage
advance AssignmentState.starting code (some idle) = some started
advance AssignmentState.running code (some started) = some running
advance AssignmentState.running code (some running) = some running
advance AssignmentState.running code (some ended) = some ended
advance AssignmentState.succeeded code (some running) = some ended
advance AssignmentState.failed (pos zero) stage = none
advance AssignmentState.failed code (some started) = some ended
advance AssignmentState.failed code (some running) = some ended
advance state code stage = none

-- The stage that an attempt's updates have reached, none if one of them came out of turn. Of a
-- failure with exit code 0 there is none either.
abbrev pub stage_of : String → List Sent → Option Stage
stage_of id [] = some idle
stage_of id (heartbeat h ∷ sent) = stage_of id sent
stage_of id (update u ∷ sent) =
    if str_eq u.attempt_id id
    then advance u.state u.exit_code (stage_of id sent)
    else stage_of id sent

module _ {S : Type 0} (svc : Service S) (msg : ExecutionAssignment) where
  abbrev At : Stage → Node S → Type 0
  At stage node = stage_of msg.attempt_id node.sent ≡ some stage

  -- How an assignment ends: with its last update, or with a panic after the first one.
  abbrev pub Ends : Node S → Type 0
  Ends node =
      At ended node
      ⊎ (At started node
          × (node.panicked ≡ true)
          × (msg.env_vars ≡ [])
          × ((world : S) × (secrets : Assoc String) × (secrets ≢ [])
              × ((svc.resolve_execution svc.host_id svc.region msg.function_version_id msg.env_refs
                    world).0
                  ≡ ok secrets)))
