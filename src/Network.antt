-- ===== src/Network.antt =====
-- internal/firecracker/microvm/network_pool.go: the pool of tap devices for full-network guests.
pub mod Pool
pub mod Subnets
