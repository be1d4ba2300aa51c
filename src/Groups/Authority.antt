-- ===== src/Groups/Authority.antt =====
-- crates/tangle_groups/src/policy.rs: the owners and admins of the configuration.
use tangle.Common.{Bool, ◌||◌, list_ord, nat_ord, BTreeSet, contains}
use tangle.Protocol.{PublicKeyHex}

pub record GroupAuthority : Type 0 where
  pub owner_pubkeys : BTreeSet PublicKeyHex
  pub admin_pubkeys : BTreeSet PublicKeyHex

abbrev pub is_owner : GroupAuthority → PublicKeyHex → Bool
is_owner authority pubkey = contains pubkey authority.owner_pubkeys

abbrev pub is_admin : GroupAuthority → PublicKeyHex → Bool
is_admin authority pubkey = contains pubkey authority.admin_pubkeys || is_owner authority pubkey

abbrev pub is_permanent_admin : GroupAuthority → PublicKeyHex → Bool
is_permanent_admin authority pubkey = is_admin authority pubkey
