-- ===== src/Domain.antt =====
-- internal/domain: the states and records that all components share.
mod States
mod Records
mod Requests
pub use States.*
pub use Records.*
pub use Requests.*
