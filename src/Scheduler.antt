-- ===== src/Scheduler.antt =====
-- internal/scheduler/service.go: the global scheduler. It admits executions under a quota and with
-- idempotency keys, ranks the regions of a function version, and hands claimed jobs to the
-- regions' coordinators.
mod State
pub mod Admission
pub mod Rank
pub mod Dispatch
pub mod Direct
pub use State.*
