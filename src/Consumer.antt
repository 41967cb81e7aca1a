-- ===== src/Consumer.antt =====
-- src/consumer: the requests of the consumers.
pub mod Bearer
pub mod Forward
pub mod Gate
pub mod Sse
pub mod Metering
pub mod Reading
pub mod Activate
