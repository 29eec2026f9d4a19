-- ===== src/Build.antt =====
-- internal/build: the build service. It accepts deployments, makes their bundles, and publishes
-- them as ready function versions.
mod State
pub mod Requests
pub mod Metadata
pub mod Recorder
pub mod Publish
pub mod Process
pub mod Create
pub mod Replicate
pub use State.*
