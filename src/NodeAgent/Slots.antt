-- ===== src/NodeAgent/Slots.antt =====
-- internal/nodeagent/service.go: the slots of an agent and their draining.
pub mod Bounds
pub mod Accounting
use lecrev.Prelude.{◌+◌, ◌-◌, String, Bool, ◌&&◌, [], ltb, if◌then◌else◌}
use lecrev.Prelude.Text.{trim_space}
use lecrev.Prelude.Fold.{equal_fold}
use lecrev.NodeAgent.State.{Agent}

unfoldable pub is_full_network_policy : String → Bool
is_full_network_policy policy = equal_fold (trim_space policy) "full"

unfoldable pub reserve_slot : Agent → Agent
reserve_slot a = record a {
  available_slots = if ltb 0 a.available_slots then a.available_slots - 1 else a.available_slots;
}

unfoldable pub release_slot : Agent → Agent
release_slot a = record a {
  available_slots =
      if ltb a.available_slots a.max_slots then a.available_slots + 1 else a.available_slots;
}

unfoldable pub reserve_assignment_slots : String → Agent → Agent
unfolding reserve_slot
reserve_assignment_slots policy a = record (reserve_slot a) {
  available_full =
      if is_full_network_policy policy && ltb 0 a.available_full
      then a.available_full - 1
      else a.available_full;
}

unfoldable pub release_assignment_slots : String → Agent → Agent
unfolding release_slot
release_assignment_slots policy a = record (release_slot a) {
  available_full =
      if is_full_network_policy policy && ltb a.available_full a.max_full_network
      then a.available_full + 1
      else a.available_full;
}

unfoldable pub apply_drain : Agent → Agent
apply_drain a = record a {
  available_slots = 0;
  available_full = 0;
  blank_warm = 0;
  function_warm = [];
}
