-- ===== src/Runtime.antt =====
-- crates/tangle_runtime: the parts of the relay that keep state for a connection or for a tenant.
pub mod Relay
pub mod ResourceLimits
pub mod GroupService
pub mod Store
pub mod Errors
pub mod RateLimits
pub mod Auth
pub mod Live
