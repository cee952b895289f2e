-- ===== src/Doh.antt =====
-- src/doh: the DNS over HTTPS server.
pub mod Serialize
pub mod RoundTrip
pub mod Handlers
pub mod Spec
pub mod Tests
