-- ===== src/Common.antt =====
-- crates/nymstr-common: what the servers share.
pub mod RateLimiter
pub mod Validation
