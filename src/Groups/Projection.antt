-- ===== src/Groups/Projection.antt =====
-- crates/tangle_groups/src/projection.rs: the state of the groups that the stored events give.
pub mod Apply
pub mod Rebuild
pub mod Frame
pub mod Deletion
pub mod Registers
pub mod Updates
pub mod Effects
pub mod Stamps
pub mod Convergence
pub mod AnyOrder
pub mod Failing
use tangle.Common.{
  ℕ, ◌≡◌, ap, Bool, true, false, not, Option, none, some, List, [], ◌∷◌, Text, Ord, Ord_by, nat_ord,
  pair_ord, list_ord, geb, is_none_or, if◌then◌else◌, ◌==◌, BTreeMap, BTreeSet, get, insert,
}
use tangle.Protocol.{EventId, PublicKeyHex, Kind, UnixTimestamp}
use tangle.Groups.Ids.{GroupId}
use tangle.Groups.Kinds.{
  group_metadata, group_admins, group_members, group_roles, group_state_39004,
}
use tangle.Groups.Metadata.{GroupMetadata}
use tangle.Groups.Roles.{RoleName, RoleDefinition}

abbrev pub StoreOffset : Type 0
StoreOffset = ℕ

pub record ProjectionOrderTuple : Type 0 where
  pub created_at : UnixTimestamp
  pub event_id : EventId
  pub store_offset : StoreOffset

abbrev pub tuple_key : ProjectionOrderTuple → UnixTimestamp × (EventId × StoreOffset)
tuple_key t = (t.created_at, (t.event_id, t.store_offset))

pub tuple_key-injective : (a b : ProjectionOrderTuple) → tuple_key a ≡ tuple_key b → a ≡ b
tuple_key-injective a b e =
    λ i. record { created_at = (e i).0; event_id = (e i).1.0; store_offset = (e i).1.1 }

-- The derived order compares the fields in turn.
instance unfoldable pub tuple_ord : Ord ProjectionOrderTuple
tuple_ord = Ord_by pair_ord tuple_key tuple_key-injective

pub data GroupLifecycleState : Type 0 where
  active deleted : GroupLifecycleState

pub data MemberStatus : Type 0 where
  member removed : MemberStatus

pub record GroupSnapshotIds : Type 0 where
  pub metadata : Option EventId
  pub admins : Option EventId
  pub members : Option EventId
  pub roles : Option EventId
  pub state_39004 : Option EventId

abbrev pub empty_snapshots : GroupSnapshotIds
empty_snapshots = record {
  metadata = none;
  admins = none;
  members = none;
  roles = none;
  state_39004 = none;
}

unfoldable pub set_for_kind : Kind → EventId → GroupSnapshotIds → GroupSnapshotIds
set_for_kind kind event_id s =
    if kind == group_metadata
    then record s { metadata = some event_id }
    else if kind == group_admins
    then record s { admins = some event_id }
    else if kind == group_members
    then record s { members = some event_id }
    else if kind == group_roles
    then record s { roles = some event_id }
    else if kind == group_state_39004
    then record s { state_39004 = some event_id }
    else s

pub record GroupState : Type 0 where
  pub id : GroupId
  pub lifecycle : GroupLifecycleState
  pub metadata : GroupMetadata
  pub created_by : PublicKeyHex
  pub created_event_id : EventId
  pub created_tuple : ProjectionOrderTuple
  pub metadata_tuple : ProjectionOrderTuple
  pub deleted_at : Option UnixTimestamp
  pub delete_event_id : Option EventId
  pub deleted_tuple : Option ProjectionOrderTuple
  pub snapshots : GroupSnapshotIds

unfoldable pub new_group_state :
    GroupId → GroupMetadata → PublicKeyHex → EventId → ProjectionOrderTuple → GroupState
new_group_state id metadata created_by created_event_id created_tuple = record {
  id = id;
  lifecycle = active;
  metadata = metadata;
  created_by = created_by;
  created_event_id = created_event_id;
  created_tuple = created_tuple;
  metadata_tuple = created_tuple;
  deleted_at = none;
  delete_event_id = none;
  deleted_tuple = none;
  snapshots = empty_snapshots;
}

unfoldable pub update_metadata : GroupMetadata → ProjectionOrderTuple → GroupState → GroupState
update_metadata metadata tuple group =
    if geb tuple group.metadata_tuple
    then record group { metadata = metadata; metadata_tuple = tuple }
    else group

unfoldable pub mark_deleted :
    UnixTimestamp → EventId → ProjectionOrderTuple → GroupState → GroupState
mark_deleted deleted_at delete_event_id tuple group =
    if is_none_or group.deleted_tuple (λ current. geb tuple current)
    then record group {
      lifecycle = deleted;
      deleted_at = some deleted_at;
      delete_event_id = some delete_event_id;
      deleted_tuple = some tuple;
    }
    else group

pub record MemberState : Type 0 where
  pub pubkey : PublicKeyHex
  pub status : MemberStatus
  pub roles : BTreeSet RoleName
  pub last_event_id : EventId
  pub last_tuple : ProjectionOrderTuple

pub record ProjectedRoleDefinition : Type 0 where
  pub definition : RoleDefinition
  pub last_event_id : EventId
  pub last_tuple : ProjectionOrderTuple

pub record GroupTombstone : Type 0 where
  pub group_id : GroupId
  pub delete_event_id : EventId
  pub deleted_at : UnixTimestamp
  pub deleted_by : PublicKeyHex
  pub last_tuple : ProjectionOrderTuple

pub record GroupEventDeletion : Type 0 where
  pub group_id : GroupId
  pub target_event_id : EventId
  pub delete_event_id : EventId
  pub deleted_at : UnixTimestamp
  pub deleted_by : PublicKeyHex
  pub last_tuple : ProjectionOrderTuple

pub record ProjectionCheckpoint : Type 0 where
  pub projection_version : ℕ
  pub policy_version : ℕ
  pub last_offset : Option StoreOffset
  pub rebuilt_at : UnixTimestamp

abbrev pub current_checkpoint : Option StoreOffset → UnixTimestamp → ProjectionCheckpoint
current_checkpoint last_offset rebuilt_at = record {
  projection_version = 1;
  policy_version = 1;
  last_offset = last_offset;
  rebuilt_at = rebuilt_at;
}

pub record GroupProjection : Type 0 where
  pub groups : BTreeMap GroupId GroupState
  pub members : BTreeMap (GroupId × PublicKeyHex) MemberState
  pub roles : BTreeMap (GroupId × RoleName) ProjectedRoleDefinition
  pub tombstones : BTreeMap GroupId GroupTombstone
  pub event_deletions : BTreeMap EventId GroupEventDeletion
  pub checkpoint : Option ProjectionCheckpoint

abbrev pub new_projection : GroupProjection
new_projection = record {
  groups = [];
  members = [];
  roles = [];
  tombstones = [];
  event_deletions = [];
  checkpoint = none;
}

abbrev pub group_of : GroupProjection → GroupId → Option GroupState
group_of p group_id = get group_id p.groups

abbrev pub member_of : GroupProjection → GroupId → PublicKeyHex → Option MemberState
member_of p group_id pubkey = get (group_id, pubkey) p.members

abbrev pub role_of : GroupProjection → GroupId → RoleName → Option ProjectedRoleDefinition
role_of p group_id role_name = get (group_id, role_name) p.roles

abbrev pub tombstone_of : GroupProjection → GroupId → Option GroupTombstone
tombstone_of p group_id = get group_id p.tombstones

abbrev pub event_deletion_of : GroupProjection → EventId → Option GroupEventDeletion
event_deletion_of p event_id = get event_id p.event_deletions

-- The guard of the `put` functions: an entry gives way to one that is not older.
abbrev pub not_older {ℓ} :
    {V : Type ℓ} → (V → ProjectionOrderTuple) → ProjectionOrderTuple → Option V → Bool
not_older last_tuple tuple current = is_none_or current (λ v. geb tuple (last_tuple v))

unfoldable pub put_group : GroupState → GroupProjection → GroupProjection
put_group state p = record p { groups = insert state.id state p.groups }

unfoldable pub put_member : GroupId → MemberState → GroupProjection → GroupProjection
put_member group_id state p =
    if not_older (λ (m : MemberState). m.last_tuple) state.last_tuple
      (get (group_id, state.pubkey) p.members)
    then record p { members = insert (group_id, state.pubkey) state p.members }
    else p

unfoldable pub put_role : GroupId → ProjectedRoleDefinition → GroupProjection → GroupProjection
put_role group_id role p =
    if not_older (λ (r : ProjectedRoleDefinition). r.last_tuple) role.last_tuple
      (get (group_id, role.definition.name) p.roles)
    then record p { roles = insert (group_id, role.definition.name) role p.roles }
    else p

unfoldable pub put_tombstone : GroupTombstone → GroupProjection → GroupProjection
put_tombstone tombstone p =
    if not_older (λ (t : GroupTombstone). t.last_tuple) tombstone.last_tuple
      (get tombstone.group_id p.tombstones)
    then record p { tombstones = insert tombstone.group_id tombstone p.tombstones }
    else p

unfoldable pub put_event_deletion : GroupEventDeletion → GroupProjection → GroupProjection
put_event_deletion deletion p =
    if not_older (λ (d : GroupEventDeletion). d.last_tuple) deletion.last_tuple
      (get deletion.target_event_id p.event_deletions)
    then record p { event_deletions = insert deletion.target_event_id deletion p.event_deletions }
    else p
