-- ===== src/Models.antt =====
-- src/consumer/models.rs, src/consumer/offerings.rs and src/consumer/catalog.rs: the catalog of the
-- models that the connected nodes offer.
pub mod Offering
pub mod Merge
pub mod Catalog
pub mod Entries
pub mod Built
pub mod Aggregate
pub mod Replay
pub mod Panic
pub mod Filters
pub mod Query
pub mod Features
pub mod NodeId
pub mod Loads
pub mod Parts
pub mod Hits
pub mod Answer
pub mod Fetch
pub mod Throttle
