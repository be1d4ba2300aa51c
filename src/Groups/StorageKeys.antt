-- ===== src/Groups/StorageKeys.antt =====
-- The keys of the extra tables: crates/tangle_groups/src/projection.rs, outbox.rs, and
-- `projection_key_parts` of crates/tangle_runtime/src/groups.rs. A key is the text whose UTF-8
-- bytes the source pushes, and the separator is the character 0.
pub mod Parts
use tangle.Common.{
  ℕ, Option, none, some, List, [], ◌∷◌, ◌++◌, Text, codes, ◌==◌, if◌then◌else◌, Bool,
}
use tangle.Protocol.{EventId, PublicKeyHex}
use tangle.Groups.Ids.{GroupId}
use tangle.Groups.Roles.{RoleName}
use tangle.Groups.Outbox.{GroupOutboxKey, effect_str}

abbrev second_part : Option Text → Text
second_part none = []
second_part (some second) = 0 ∷ second

unfoldable pub prefixed_key : Text → Text → Option Text → Text
prefixed_key prefix first second = prefix ++ 0 ∷ (first ++ second_part second)

abbrev pub group_current_key : GroupId → Text
group_current_key group_id = prefixed_key (codes "group") group_id none

abbrev pub member_current_key : GroupId → PublicKeyHex → Text
member_current_key group_id pubkey = prefixed_key (codes "member") group_id (some pubkey)

abbrev pub role_current_key : GroupId → RoleName → Text
role_current_key group_id role_name = prefixed_key (codes "role") group_id (some role_name)

abbrev pub tombstone_key : GroupId → Text
tombstone_key group_id = prefixed_key (codes "tombstone") group_id none

abbrev pub event_deletion_key : EventId → Text
event_deletion_key event_id = prefixed_key (codes "event_deletion") event_id none

abbrev pub projection_checkpoint_key : Text
projection_checkpoint_key = codes "checkpoint" ++ 0 ∷ codes "groups"

abbrev pub pubkey_or_nothing : Option PublicKeyHex → Text
pubkey_or_nothing none = []
pubkey_or_nothing (some pubkey) = pubkey

unfoldable pub storage_key : GroupOutboxKey → Text
storage_key k =
    k.source_event_id
    ++ 0 ∷ (effect_str k.effect ++ 0 ∷ (k.group_id ++ 0 ∷ pubkey_or_nothing k.target_pubkey))

-- `split`: the first part goes on until the next separator.
unfoldable pub push_first : ℕ → List Text → List Text
push_first c [] = (c ∷ []) ∷ []
push_first c (part ∷ parts) = (c ∷ part) ∷ parts

unfoldable pub projection_key_parts : Text → List Text
unfolding push_first
projection_key_parts [] = [] ∷ []
projection_key_parts (c ∷ s) =
    let rest = projection_key_parts s in if c == 0 then [] ∷ rest else push_first c rest
