-- ===== src/Protocol.antt =====
-- crates/protocol: the messages that the hub, the machines and the browsers exchange.
pub mod Composer
pub mod Frames
mod Tests
