-- ===== src/Groups.antt =====
-- crates/tangle_groups/src: the NIP-29 groups of a tenant.
pub mod Errors
pub mod Config
pub mod Ids
pub mod Kinds
pub mod EventView
pub mod Tags
pub mod Classification
pub mod Roles
pub mod Metadata
pub mod Projection
pub mod WriteGate
pub mod Authority
pub mod WritePolicy
pub mod ReadGate
pub mod Outbox
pub mod Signing
pub mod StorageKeys
