-- ===== src/Tests.antt =====
-- The theorems at concrete inputs.
mod Queue
mod Capacity
mod Tunnel
mod Consumer
mod UsageBatch
mod Chain
mod Gate
mod Handshake
mod Lifecycle
mod Values
mod Models
mod Activate
mod Status
mod Forward
mod Admin
mod Watcher
