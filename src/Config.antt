-- ===== src/Config.antt =====
-- The configuration types of src/config.
pub mod Default
pub mod Core
pub mod Rule
pub mod Patterns
pub mod Validate
pub mod Sound
pub mod Listens
pub mod Upstream
pub mod Tests
