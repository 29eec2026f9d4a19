-- ===== src/NodeAgent/Slots/Bounds.antt =====
-- The free slots of an agent stay within its limits.
use lecrev.Prelude.{◌≤◌, String, arith}
use lecrev.NodeAgent.State.{Agent}
use lecrev.NodeAgent.Slots.{
  reserve_assignment_slots, release_assignment_slots, reserve_slot, release_slot, apply_drain,
}

abbrev pub Bounded : Agent → Type 0
Bounded a = (a.available_slots ≤ a.max_slots) × (a.available_full ≤ a.max_full_network)

reserve-Bounded : (p : String) (a : Agent) → Bounded a → Bounded (reserve_assignment_slots p a)
unfolding reserve_assignment_slots reserve_slot
reserve-Bounded p a h = ground arith

release-Bounded : (p : String) (a : Agent) → Bounded a → Bounded (release_assignment_slots p a)
unfolding release_assignment_slots release_slot
release-Bounded p a h = ground arith

drain-Bounded : (a : Agent) → Bounded a → Bounded (apply_drain a)
unfolding apply_drain
drain-Bounded a h = ground arith
