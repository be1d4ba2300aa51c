-- ===== src/Groups/Projection/Updates.antt =====
-- What an event writes into the members, the tombstones and the deletions, read off the event
-- alone.
use tangle.Common.{
  Option, none, some, ok, err, Result, ◌>>=◌, codes, if◌then◌else◌, ◌==◌, pair_ord, list_ord,
  nat_ord,
}
use tangle.Protocol.{EventId, PublicKeyHex, new_event_id, new_public_key}
use tangle.Groups.Errors.{GroupError, invalid, map_err, malformed_target_tag}
use tangle.Groups.Config.{GroupLimitsConfig}
use tangle.Groups.Ids.{GroupId}
use tangle.Groups.Kinds.{put_user, remove_user, delete_event, delete_group}
use tangle.Groups.EventView.{PocketEvent, event_id, event_pubkey}
use tangle.Groups.Classification.{GroupEventClass, moderation, classify_group_event}
use tangle.Groups.Projection.{
  StoreOffset, ProjectionOrderTuple, MemberState, MemberStatus, member, removed, GroupTombstone,
  GroupEventDeletion,
}
use tangle.Groups.Projection.Apply.{first_tag_value, role_tags}
use tangle.Groups.Projection.Rebuild.{CanonicalGroupEvent}

abbrev pub to_option {ℓ κ} : {E : Type ℓ} {A : Type κ} → Result E A → Option A
to_option (ok a) = some a
to_option (err e) = none

abbrev pub tuple_at : PocketEvent → EventId → StoreOffset → ProjectionOrderTuple
tuple_at e id offset = record { created_at = e.created_at; event_id = id; store_offset = offset }

abbrev pub MemberKey : Type 0
MemberKey = GroupId × PublicKeyHex

-- The group of a moderation event of kind `kind`.
abbrev pub moderated : GroupEventClass → Option GroupId
moderated (moderation _ g) = some g
moderated _ = none

unfoldable pub member_entry :
    GroupId
    → PocketEvent
    → ProjectionOrderTuple
    → MemberStatus
    → Result GroupError (MemberKey × MemberState)
member_entry g e t s = do
  target ← first_tag_value e (codes "p")
  pubkey ← map_err (invalid malformed_target_tag) (new_public_key target)
  roles ← role_tags e
  id ← event_id e
  ok (
    (g, pubkey),
    record { pubkey = pubkey; status = s; roles = roles; last_event_id = id; last_tuple = t },
  )

unfoldable pub deletion_entry :
    GroupId → PocketEvent → ProjectionOrderTuple → Result GroupError (EventId × GroupEventDeletion)
deletion_entry g e t = do
  target ← first_tag_value e (codes "e")
  target_event_id ← map_err (invalid malformed_target_tag) (new_event_id target)
  id ← event_id e
  pubkey ← event_pubkey e
  ok (
    target_event_id,
    record {
      group_id = g;
      target_event_id = target_event_id;
      delete_event_id = id;
      deleted_at = e.created_at;
      deleted_by = pubkey;
      last_tuple = t;
    },
  )

unfoldable pub tombstone_entry :
    GroupId → PocketEvent → ProjectionOrderTuple → Result GroupError (GroupId × GroupTombstone)
tombstone_entry g e t = do
  id ← event_id e
  pubkey ← event_pubkey e
  ok (
    g,
    record {
      group_id = g;
      delete_event_id = id;
      deleted_at = e.created_at;
      deleted_by = pubkey;
      last_tuple = t;
    },
  )

-- The group and the tuple of a moderation event.
unfoldable pub moderation_tuple :
    GroupLimitsConfig → CanonicalGroupEvent → Option (GroupId × ProjectionOrderTuple)
moderation_tuple l item = elim (classify_group_event item.event l) [
  | err _ ↦ none
  | ok class ↦ elim (moderated class) [
    | none ↦ none
    | some g ↦ elim (event_id item.event) [
      | err _ ↦ none
      | ok id ↦ some (g, tuple_at item.event id item.store_offset)
    ]
  ]
]

unfoldable pub member_written :
    GroupId → PocketEvent → ProjectionOrderTuple → Option (MemberKey × MemberState)
member_written g e t =
    if e.kind_u32 == put_user
    then to_option (member_entry g e t member)
    else if e.kind_u32 == remove_user
    then to_option (member_entry g e t removed)
    else none

unfoldable pub deletion_written :
    GroupId → PocketEvent → ProjectionOrderTuple → Option (EventId × GroupEventDeletion)
deletion_written g e t =
    if e.kind_u32 == delete_event then to_option (deletion_entry g e t) else none

unfoldable pub tombstone_written :
    GroupId → PocketEvent → ProjectionOrderTuple → Option (GroupId × GroupTombstone)
tombstone_written g e t =
    if e.kind_u32 == delete_group then to_option (tombstone_entry g e t) else none

abbrev pub if_moderation :
    {A : Type 0}
    → (GroupId → PocketEvent → ProjectionOrderTuple → Option A)
    → PocketEvent
    → Option (GroupId × ProjectionOrderTuple)
    → Option A
if_moderation f e none = none
if_moderation f e (some (g, t)) = f g e t

-- What an event writes, by the map that it writes to.
unfoldable pub member_update :
    GroupLimitsConfig → CanonicalGroupEvent → Option (MemberKey × MemberState)
member_update l item = if_moderation member_written item.event (moderation_tuple l item)

unfoldable pub deletion_update :
    GroupLimitsConfig → CanonicalGroupEvent → Option (EventId × GroupEventDeletion)
deletion_update l item = if_moderation deletion_written item.event (moderation_tuple l item)

unfoldable pub tombstone_update :
    GroupLimitsConfig → CanonicalGroupEvent → Option (GroupId × GroupTombstone)
tombstone_update l item = if_moderation tombstone_written item.event (moderation_tuple l item)
