-- ===== src/Remote.antt =====
-- src/remote_rule: rules that are loaded over HTTP. The log lines and the counts that they show are
-- not kept.
pub mod Parser
pub mod Loader
pub mod Merge
pub mod Accepted
pub mod Load
pub mod Tests
