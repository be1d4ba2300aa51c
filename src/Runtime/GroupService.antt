-- ===== src/Runtime/GroupService.antt =====
-- crates/tangle_runtime/src/groups.rs: the state of the groups of a tenant, and the writes to it.
-- The lock around the state makes each operation one step.
pub mod State
pub mod Writes
pub mod Outcomes
pub mod Merging
pub mod Planning
pub mod Completes
pub mod Settles
pub mod Counts
pub mod Drains
pub mod Generates
pub mod Planned
pub mod Tracks
use tangle.Common.{
  ℕ, ◌==◌, ◌||◌, Bool, true, false, Option, none, some, is_some_and, List, [], ◌∷◌, Result, ok, err,
  ok_or, ◌>>=◌, ◌>>◌, Text, codes, eqb, list_ord, nat_ord, not, is_none_or, if◌then◌else◌,
}
use tangle.Protocol.{EventId, Kind, PublicKeyHex, UnixTimestamp, new_event_id}
use tangle.Groups.Errors.{
  GroupError, invalid, internal, map_err, malformed_target_tag, missing_target_tag,
}
use tangle.Groups.Ids.{GroupId}
use tangle.Groups.Kinds.{
  put_user, remove_user, edit_metadata, create_group, group_members, join_request, leave_request,
}
use tangle.Groups.EventView.{
  PocketEvent, GroupEventTag, first_value, indexed_pair, visit_tags, event_id, event_pubkey,
}
use tangle.Groups.Classification.{
  GroupEventClass, non_group, normal, moderation, relay_generated_snapshot,
}
use tangle.Groups.Authority.{GroupAuthority}
use tangle.Groups.Projection.{GroupState, GroupProjection, group_of, member_of}
use tangle.Groups.WritePolicy.{target_pubkey}
use tangle.Groups.Outbox.{
  GroupOutboxEffect, metadata_snapshot, admin_list_snapshot, member_list_snapshot, join_accepted,
  leave_accepted, GroupOutboxKey, GroupOutboxRecord, GroupOutboxPayload, mark_skipped,
}
use tangle.Groups.Outbox
use tangle.Groups.Signing.{
  is_override_member, new_payload, metadata_snapshot_payload, admin_list_snapshot_payload,
  member_list_snapshot_payload, join_accepted_payload, leave_accepted_payload,
}

-- `membership_target_pubkey` has the text of `target_pubkey` of the write policy for the tag `p`.
abbrev pub membership_target_pubkey : PocketEvent → Result GroupError PublicKeyHex
membership_target_pubkey event = target_pubkey event (codes "p")

abbrev pub member_is_relay_override_admin : GroupProjection → GroupId → PublicKeyHex → Bool
member_is_relay_override_admin projection group_id pubkey =
    is_some_and (member_of projection group_id pubkey) is_override_member

unfoldable pub membership_admin_snapshot_state :
    GroupProjection → PocketEvent → GroupEventClass → Result GroupError (Option Bool)
membership_admin_snapshot_state projection event (moderation kind group_id) =
    if kind == put_user || kind == remove_user
    then (do
      target ← membership_target_pubkey event
      ok (some (member_is_relay_override_admin projection group_id target)))
    else ok none
membership_admin_snapshot_state projection event non_group = ok none
membership_admin_snapshot_state projection event (normal group_id) = ok none
membership_admin_snapshot_state projection event (relay_generated_snapshot kind group_id) = ok none

abbrev pub require_projected_group : GroupProjection → GroupId → Result GroupError GroupState
require_projected_group projection group_id = ok_or (group_of projection group_id) internal

unfoldable pub planned_record :
    PocketEvent
    → GroupOutboxEffect
    → GroupId
    → Option PublicKeyHex
    → GroupOutboxPayload
    → Result GroupError GroupOutboxRecord
planned_record event effect group_id target payload = do
  id ← event_id event
  ok (
      Outbox.pending_record
        (record {
          source_event_id = id;
          effect = effect;
          group_id = group_id;
          target_pubkey = target;
        })
        payload)

abbrev snapshot_or_skipped :
    GroupOutboxKey → GroupId → UnixTimestamp → Option GroupOutboxPayload → GroupOutboxRecord
snapshot_or_skipped key group_id created_at (some payload) = Outbox.pending_record key payload
snapshot_or_skipped key group_id created_at none =
    mark_skipped (codes "member snapshot exceeds configured cap") (
      Outbox.pending_record key
        (new_payload group_members created_at ((codes "d" ∷ group_id ∷ []) ∷ [])))

unfoldable pub member_snapshot_record :
    PocketEvent
    → GroupId
    → GroupProjection
    → UnixTimestamp
    → ℕ
    → Result GroupError GroupOutboxRecord
member_snapshot_record event group_id projection created_at cap = do
  id ← event_id event
  ok (
      snapshot_or_skipped
        (record {
          source_event_id = id;
          effect = member_list_snapshot;
          group_id = group_id;
          target_pubkey = none;
        })
        group_id created_at (member_list_snapshot_payload group_id projection created_at cap))

abbrev pub Planned : Type 0
Planned = Result GroupError (List GroupOutboxRecord)

abbrev pub differs : Bool → Bool → Bool
differs before after = if before then not after else after

unfoldable pub member_snapshot_records :
    PocketEvent
    → GroupId
    → GroupProjection
    → GroupAuthority
    → UnixTimestamp
    → ℕ
    → Option Bool
    → Planned
unfolding member_snapshot_record planned_record
member_snapshot_records event group_id projection authority created_at cap before_state = do
  members ← member_snapshot_record event group_id projection created_at cap
  elim before_state [
    | none ↦ ok (members ∷ [])
    | some before ↦ do
      target ← membership_target_pubkey event
      if differs before (member_is_relay_override_admin projection group_id target)
          then (do
            admins ←
                planned_record event admin_list_snapshot group_id none
                  (admin_list_snapshot_payload group_id projection authority created_at)
            ok (members ∷ admins ∷ []))
          else ok (members ∷ [])
  ]

-- Whether the encoding of tags accepts those of a metadata snapshot is the library's.
module _ (encodes : List (List Text) → Bool) where
  unfoldable pub metadata_record :
      PocketEvent → GroupId → GroupProjection → Result GroupError GroupOutboxRecord
  unfolding planned_record
  metadata_record event group_id projection = do
    group ← require_projected_group projection group_id
    payload ← metadata_snapshot_payload encodes group event.created_at
    planned_record event metadata_snapshot group_id none payload

  -- The match on the kind of a moderation.
  unfoldable pub plan_moderation :
      PocketEvent → Kind → GroupId → GroupProjection → GroupAuthority → ℕ → Option Bool → Planned
  unfolding metadata_record member_snapshot_records
  plan_moderation event kind group_id projection authority cap before_state =
      if kind == create_group
      then (do
        metadata ← metadata_record event group_id projection
        admins ←
            planned_record event admin_list_snapshot group_id none
              (admin_list_snapshot_payload group_id projection authority event.created_at)
        ok (metadata ∷ admins ∷ []))
      else if kind == edit_metadata
      then (do metadata ← metadata_record event group_id projection; ok (metadata ∷ []))
      else if kind == put_user || kind == remove_user
      then member_snapshot_records event group_id projection authority event.created_at cap
          before_state
      else ok []

  unfoldable pub plan_normal : PocketEvent → GroupId → Planned
  unfolding planned_record
  plan_normal event group_id =
      if event.kind_u32 == join_request
      then (do
        pubkey ← event_pubkey event
        joined ←
            planned_record event join_accepted group_id (some pubkey)
              (join_accepted_payload group_id pubkey event.created_at)
        ok (joined ∷ []))
      else if event.kind_u32 == leave_request
      then (do
        pubkey ← event_pubkey event
        left ←
            planned_record event leave_accepted group_id (some pubkey)
              (leave_accepted_payload group_id pubkey event.created_at)
        ok (left ∷ []))
      else ok []

  unfoldable pub plan_group_outbox_records :
      PocketEvent → GroupEventClass → GroupProjection → GroupAuthority → ℕ → Option Bool → Planned
  unfolding plan_moderation plan_normal
  plan_group_outbox_records event (moderation kind group_id) projection authority cap before_state =
      plan_moderation event kind group_id projection authority cap before_state
  plan_group_outbox_records event (normal group_id) projection authority cap before_state =
      plan_normal event group_id
  plan_group_outbox_records event non_group projection authority cap before_state = ok []
  plan_group_outbox_records event (relay_generated_snapshot kind group_id) projection authority cap
        before_state =
      ok []
