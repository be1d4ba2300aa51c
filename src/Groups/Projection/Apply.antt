-- ===== src/Groups/Projection/Apply.antt =====
-- crates/tangle_groups/src/projection.rs: the effect of a stored event. An error
-- leaves the projection as it was: each `?` stands before the first change.
use tangle.Common.{
  not, Option, none, some, is_none_or, [], ◌∷◌, Result, ok, err, ◌>>=◌, ok_or, Text, codes, eqb,
  list_ord, nat_ord, pair_ord, ◌==◌, if◌then◌else◌, BTreeSet, get, insert, add,
}
use tangle.Protocol.{EventId, Kind, UnixTimestamp, new_event_id, new_public_key}
use tangle.Groups.Errors.{GroupError, invalid, map_err, malformed_target_tag, missing_target_tag}
use tangle.Groups.Config.{GroupLimitsConfig}
use tangle.Groups.Ids.{GroupId}
use tangle.Groups.Kinds.{
  put_user, remove_user, edit_metadata, delete_event, create_group, delete_group, group_metadata,
}
use tangle.Groups.EventView.{
  PocketEvent, GroupEventTag, first_value, indexed_pair, visit_tags, event_id, event_pubkey,
}
use tangle.Groups.Roles.{RoleName, new_role_name}
use tangle.Groups.Metadata.{parse_group_metadata}
use tangle.Groups.Classification.{
  non_group, normal, moderation, relay_generated_snapshot, classify_group_event,
}
use tangle.Groups.Projection.{
  StoreOffset, ProjectionOrderTuple, tuple_ord, GroupState, GroupTombstone, MemberStatus, member,
  removed, GroupProjection, not_older, new_group_state, update_metadata, mark_deleted, set_for_kind,
  put_group, put_member, put_event_deletion,
}

pub data ProjectionApplyOutcome : Type 0 where
  applied ignored skipped : ProjectionApplyOutcome

abbrev pub Applied : Type 0
Applied = Result GroupError (GroupProjection × ProjectionApplyOutcome)

-- The last tag of the name counts.
abbrev target_visitor : Text → Option Text → GroupEventTag → Result GroupError (Option Text)
target_visitor name found tag =
    if is_none_or (first_value tag) (λ tag_name. not (eqb tag_name name))
    then ok found
    else elim (indexed_pair tag) [
      | none ↦ err (invalid malformed_target_tag)
      | some (_, value) ↦ ok (some value)
    ]

unfoldable pub first_tag_value : PocketEvent → Text → Result GroupError Text
first_tag_value event name = do
  found ← visit_tags event none (target_visitor name)
  ok_or found (invalid missing_target_tag)

abbrev role_visitor : BTreeSet RoleName → GroupEventTag → Result GroupError (BTreeSet RoleName)
role_visitor roles (name ∷ value ∷ rest) =
    if eqb name (codes "role")
    then (do role ← new_role_name value; ok (add role roles))
    else ok roles
role_visitor roles (name ∷ []) = ok roles
role_visitor roles [] = ok roles

unfoldable pub role_tags : PocketEvent → Result GroupError (BTreeSet RoleName)
role_tags event = visit_tags event [] role_visitor

unfoldable pub apply_member_status :
    GroupId → PocketEvent → ProjectionOrderTuple → MemberStatus → GroupProjection → Applied
apply_member_status group_id event tuple status p = do
  target ← first_tag_value event (codes "p")
  pubkey ← map_err (invalid malformed_target_tag) (new_public_key target)
  roles ← role_tags event
  id ← event_id event
  ok (
    put_member group_id
        (record {
          pubkey = pubkey;
          status = status;
          roles = roles;
          last_event_id = id;
          last_tuple = tuple;
        })
        p,
    applied,
  )

unfoldable pub apply_create_group :
    GroupId → PocketEvent → ProjectionOrderTuple → GroupLimitsConfig → GroupProjection → Applied
apply_create_group group_id event tuple limits p = do
  metadata ← parse_group_metadata event limits
  pubkey ← event_pubkey event
  id ← event_id event
  if not_older (λ (g : GroupState). g.created_tuple) tuple (get group_id p.groups)
      then ok (put_group (new_group_state group_id metadata pubkey id tuple) p, applied)
      else ok (p, ignored)

unfoldable pub apply_edit_metadata :
    GroupId → PocketEvent → ProjectionOrderTuple → GroupLimitsConfig → GroupProjection → Applied
apply_edit_metadata group_id event tuple limits p = elim (get group_id p.groups) [
  | none ↦ ok (p, ignored)
  | some group ↦ do
    metadata ← parse_group_metadata event limits
    ok (
      record p { groups = insert group_id (update_metadata metadata tuple group) p.groups },
      applied,
    )
]

unfoldable pub apply_delete_event :
    GroupId → PocketEvent → ProjectionOrderTuple → GroupProjection → Applied
apply_delete_event group_id event tuple p = do
  target ← first_tag_value event (codes "e")
  target_event_id ← map_err (invalid malformed_target_tag) (new_event_id target)
  id ← event_id event
  pubkey ← event_pubkey event
  ok (
    put_event_deletion
        (record {
          group_id = group_id;
          target_event_id = target_event_id;
          delete_event_id = id;
          deleted_at = event.created_at;
          deleted_by = pubkey;
          last_tuple = tuple;
        })
        p,
    applied,
  )

-- `get_mut` and `mark_deleted`.
unfoldable pub mark_group_deleted :
    GroupId → UnixTimestamp → EventId → ProjectionOrderTuple → GroupProjection → GroupProjection
mark_group_deleted group_id deleted_at id tuple p = elim (get group_id p.groups) [
  | none ↦ p
  | some group ↦ record p {
    groups = insert group_id (mark_deleted deleted_at id tuple group) p.groups;
  }
]

unfoldable pub apply_delete_group :
    GroupId → PocketEvent → ProjectionOrderTuple → GroupProjection → Applied
unfolding mark_group_deleted
apply_delete_group group_id event tuple p = do
  id ← event_id event
  pubkey ← event_pubkey event
  let tombstone : GroupTombstone = record {
    group_id = group_id;
    delete_event_id = id;
    deleted_at = event.created_at;
    deleted_by = pubkey;
    last_tuple = tuple;
  }
  let marked = mark_group_deleted group_id event.created_at id tuple p
  if not_older (λ (t : GroupTombstone). t.last_tuple) tuple (get group_id p.tombstones)
      then ok (record marked { tombstones = insert group_id tombstone p.tombstones }, applied)
      else ok (marked, ignored)

unfoldable pub apply_moderation_event :
    GroupId → PocketEvent → ProjectionOrderTuple → GroupLimitsConfig → GroupProjection → Applied
apply_moderation_event group_id event tuple limits p =
    if event.kind_u32 == create_group
    then apply_create_group group_id event tuple limits p
    else if event.kind_u32 == edit_metadata
    then apply_edit_metadata group_id event tuple limits p
    else if event.kind_u32 == put_user
    then apply_member_status group_id event tuple member p
    else if event.kind_u32 == remove_user
    then apply_member_status group_id event tuple removed p
    else if event.kind_u32 == delete_event
    then apply_delete_event group_id event tuple p
    else if event.kind_u32 == delete_group
    then apply_delete_group group_id event tuple p
    else ok (p, ignored)

-- The branch of the metadata snapshot.
unfoldable pub apply_metadata_snapshot :
    GroupId
    → Kind
    → PocketEvent
    → ProjectionOrderTuple
    → GroupLimitsConfig
    → GroupProjection
    → Result GroupError GroupProjection
apply_metadata_snapshot group_id kind event tuple limits p = do
  metadata ← parse_group_metadata event limits
  id ← event_id event
  elim (get group_id p.groups) [
    | some group ↦
        let next = update_metadata metadata tuple group in
        ok (record p {
          groups =
              insert group_id (record next { snapshots = set_for_kind kind id next.snapshots })
                p.groups;
        })
    | none ↦ do
      pubkey ← event_pubkey event
      let state = new_group_state group_id metadata pubkey id tuple
      ok (put_group (record state { snapshots = set_for_kind kind id state.snapshots }) p)
  ]

-- The branch of the other snapshots.
unfoldable pub apply_other_snapshot :
    GroupId → Kind → PocketEvent → GroupProjection → Result GroupError GroupProjection
apply_other_snapshot group_id kind event p = elim (get group_id p.groups) [
  | none ↦ ok p
  | some group ↦ do
    id ← event_id event
    ok (record p {
      groups =
          insert group_id (record group { snapshots = set_for_kind kind id group.snapshots })
            p.groups;
    })
]

unfoldable pub apply_snapshot_event :
    GroupId
    → Kind
    → PocketEvent
    → ProjectionOrderTuple
    → GroupLimitsConfig
    → GroupProjection
    → Applied
apply_snapshot_event group_id kind event tuple limits p = do
  q ←
      if kind == group_metadata
      then apply_metadata_snapshot group_id kind event tuple limits p
      else apply_other_snapshot group_id kind event p
  ok (q, applied)

unfoldable pub apply_canonical_event :
    PocketEvent → StoreOffset → GroupLimitsConfig → GroupProjection → Applied
apply_canonical_event event store_offset limits p = do
  class ← classify_group_event event limits
  id ← event_id event
  let tuple : ProjectionOrderTuple = record {
    created_at = event.created_at;
    event_id = id;
    store_offset = store_offset;
  }
  elim class [
    | non_group ↦ ok (p, skipped)
    | normal _ ↦ ok (p, ignored)
    | moderation _ group_id ↦ apply_moderation_event group_id event tuple limits p
    | relay_generated_snapshot kind group_id ↦
        apply_snapshot_event group_id kind event tuple limits p
  ]
