-- ===== src/Upstream.antt =====
-- src/upstream: the clients of the upstream servers, and their manager.
pub mod HttpClient
pub mod DnsClient
pub mod Json
pub mod Doh
pub mod Manager
pub mod Ids
pub mod Service
pub mod System
pub mod Validated
pub mod Toy
pub mod Tests
