-- ===== src/Tests.antt =====
-- The theorems at concrete inputs, where their hypotheses hold.
mod Data
mod Store
mod Scheduler
mod Coordinator
mod Parts
mod Build
mod Api
mod NodeAgent
