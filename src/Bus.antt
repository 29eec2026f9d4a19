-- ===== src/Bus.antt =====
-- internal/dispatch/memory.go, internal/build/memorybus.go: the message buses that are kept in
-- memory.
pub mod Execution
pub mod Build
