-- ===== src/Status.antt =====
-- src/status: what the router tells of its nodes.
pub mod Nodes
pub mod Snapshot
pub mod Subscribe
pub mod Authorized
