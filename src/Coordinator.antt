-- ===== src/Coordinator.antt =====
-- internal/coordinator/service.go: the coordinator of one region. It keeps a session for each
-- connected host, reserves slots for executions, applies the updates that hosts send, and mirrors
-- hosts, warm pools and region totals into the store.
mod Service
mod Capacity
pub mod Node
pub mod Reserve
pub mod Assign
pub mod Updates
pub mod Wait
pub mod Hosts
pub mod Snapshot
pub use Service.*
unfoldable pub use Capacity.{classify_start_mode}
pub use Capacity.*
