-- ===== src/NodeAgent.antt =====
-- internal/nodeagent/service.go: the agent on a host. It offers its slots to the region's
-- coordinator, runs the assignments it is sent on the host's driver, and reports what becomes of
-- them.
mod State
pub mod Slots
pub mod Trace
pub mod Limits
pub mod Bundles
pub mod Messages
pub mod Execute
pub mod Prepare
unfoldable pub use State.*
