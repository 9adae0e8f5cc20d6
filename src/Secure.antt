-- ===== src/Secure.antt =====
-- crates/secure: the encrypted connection between the App and the Hub.
pub mod Noise
pub mod Bytes
pub mod Channel
pub mod Writer
pub mod Tests
