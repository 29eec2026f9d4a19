-- ===== src/Api.antt =====
-- internal/httpapi/server.go: the HTTP API. It authenticates a request's key, keeps tenants apart,
-- and hands the work to the build service, the scheduler and the store.
pub mod Status
pub mod Auth
pub mod Text
pub mod Triggers
pub mod Results
pub mod Deployments
pub mod Reads
pub mod Projects
