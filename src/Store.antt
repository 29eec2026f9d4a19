-- ===== src/Store.antt =====
-- internal/store: the in-memory store (internal/store/memory/store.go) and the interface to it
-- (internal/store/store.go). Every method holds the store's lock for its whole body, so a method
-- is one step; the copies that methods take of records are the records themselves here.
mod State
pub mod Projects
pub mod Idempotency
pub mod Artifacts
pub mod Jobs
pub mod Attempts
pub mod Hosts
pub mod Triggers
pub mod Backend
pub mod Invariant
pub use State.*
