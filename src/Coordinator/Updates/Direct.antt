-- ===== src/Coordinator/Updates/Direct.antt =====
-- Updates of direct invocations.
use lecrev.Prelude.{String, ◌≡◌, false, none, some, arith, str_eq}
use lecrev.Maps.{get, get-remove}
use lecrev.Errors.{ok}
use lecrev.Domain.{Time}
use lecrev.Store.Backend.{Backend}
use lecrev.Coordinator.Service.{AssignmentUpdate, Waiter}
use lecrev.Coordinator.Node.{Node}
use lecrev.Coordinator.Updates.{handle_assignment_update, handle_direct_invoke_update}

module _ {S : Type 0} (db : Backend S) where
  -- An update of a direct invocation is taken by its waiter: the shared store stays as it is, no
  -- retry starts, and the waiters of other attempts stay.
  direct-shared :
      (msg : AssignmentUpdate) (now : Time) (n : Node S) (waiter : Waiter) (other : String)
      → get n.self.direct_invokes msg.attempt_id ≡ some waiter
      → str_eq msg.attempt_id other ≡ false
      → let r = handle_assignment_update db msg now n in
        (r.0 ≡ ok none)
        × (r.1.shared ≡ n.shared)
        × (get r.1.self.direct_invokes other ≡ get n.self.direct_invokes other)
  unfolding handle_assignment_update handle_direct_invoke_update
  direct-shared msg now n waiter other h k =
      ground (arith, h, k, get-remove n.self.direct_invokes msg.attempt_id other)
