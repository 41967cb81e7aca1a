-- ===== src/Chain.antt =====
-- src/chain: the sessions of the escrow contract, as the router reads them.
pub mod Session
pub mod Cache
pub mod Usage
pub mod RoleKey
pub mod Registry
pub mod Watcher
