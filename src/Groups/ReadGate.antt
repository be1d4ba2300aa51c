-- ===== src/Groups/ReadGate.antt =====
-- crates/tangle_groups/src/read_gate.rs, and `event_visible_to_auth` of
-- crates/tangle_runtime/src/groups.rs.
pub mod Spec
pub mod Decides
pub mod Viewers
pub mod Privacy
use tangle.Common.{
  ℕ, Bool, true, false, ◌||◌, ◌&&◌, not, Option, none, some, is_some, is_none_or, is_some_and, List,
  [], ◌∷◌, Result, ok, err, ◌>>=◌, ◌>>◌, Text, eqb, list_ord, nat_ord, pair_ord, ◌==◌,
  if◌then◌else◌, get,
}
use tangle.Protocol.{EventId, PublicKeyHex, Kind}
use tangle.Groups.Errors.{GroupError, restricted, group_unavailable}
use tangle.Groups.Config.{GroupLimitsConfig}
use tangle.Groups.Ids.{GroupId}
use tangle.Groups.Kinds.{delete_group, group_metadata, group_admins}
use tangle.Groups.EventView.{PocketEvent, event_id}
use tangle.Groups.Classification.{
  GroupEventClass, non_group, normal, moderation, relay_generated_snapshot, classify_group_event,
}
use tangle.Groups.Projection.{
  GroupState, MemberState, GroupTombstone, GroupProjection, member, removed, group_of, member_of,
  tombstone_of, event_deletion_of,
}
use tangle.Groups.WriteGate.{GroupAuthContext}
use tangle.Groups.Authority.{GroupAuthority, is_admin}
use tangle.Groups.WritePolicy.{is_member_status, non_enumerating_group_error}

pub data GroupReadDecision : Type 0 where
  visible hidden : GroupReadDecision

pub record GroupReadGate : Type 0 where
  pub projection : GroupProjection
  pub authority : GroupAuthority

abbrev pub ReadDecision : Type 0
ReadDecision = Result GroupError GroupReadDecision

abbrev pub is_public_when_private_snapshot : Kind → Bool
is_public_when_private_snapshot kind = kind == group_metadata || kind == group_admins

module _ (gate : GroupReadGate) where
  open gate use {projection, authority}

  unfoldable pub reader_can_read : GroupId → Option PublicKeyHex → Bool
  reader_can_read group_id none = false
  reader_can_read group_id (some reader) =
      if is_admin authority reader
      then true
      else is_some_and (member_of projection group_id reader) is_member_status

  unfoldable pub screen_snapshot_event : Kind → GroupId → Option PublicKeyHex → ReadDecision
  screen_snapshot_event kind group_id reader = elim (group_of projection group_id) [
    | none ↦ ok hidden
    | some group ↦
        if is_some (tombstone_of projection group_id)
        then ok hidden
        else if group.metadata.hidden && not (reader_can_read group_id reader)
        then ok hidden
        else if group.metadata.private
            && (not (is_public_when_private_snapshot kind) && not (reader_can_read group_id reader))
        then ok hidden
        else ok visible
  ]

  unfoldable pub screen_normal_event : GroupId → Option PublicKeyHex → ReadDecision
  screen_normal_event group_id reader = elim (group_of projection group_id) [
    | none ↦ ok hidden
    | some group ↦
        if is_some (tombstone_of projection group_id)
        then ok hidden
        else if (group.metadata.hidden || group.metadata.private)
            && not (reader_can_read group_id reader)
        then ok hidden
        else ok visible
  ]

  unfoldable pub screen_delete_group_marker : EventId → GroupId → Option PublicKeyHex → ReadDecision
  unfolding screen_normal_event
  screen_delete_group_marker event_id group_id reader = elim (group_of projection group_id) [
    | none ↦ ok hidden
    | some group ↦
        if is_none_or (tombstone_of projection group_id) (λ t. not (eqb t.delete_event_id event_id))
        then screen_normal_event group_id reader
        else if (group.metadata.hidden || group.metadata.private)
            && not (reader_can_read group_id reader)
        then ok hidden
        else ok visible
  ]

  -- The match on the class.
  unfoldable pub screen_class :
      PocketEvent → EventId → Option PublicKeyHex → GroupEventClass → ReadDecision
  screen_class event id reader non_group = ok visible
  screen_class event id reader (normal group_id) = screen_normal_event group_id reader
  screen_class event id reader (moderation _ group_id) =
      if event.kind_u32 == delete_group
      then screen_delete_group_marker id group_id reader
      else screen_normal_event group_id reader
  screen_class event id reader (relay_generated_snapshot kind group_id) =
      screen_snapshot_event kind group_id reader

  unfoldable pub screen_event : PocketEvent → Option PublicKeyHex → GroupLimitsConfig → ReadDecision
  unfolding screen_class
  screen_event event reader limits = do
    id ← event_id event
    if is_some (event_deletion_of projection id)
        then ok hidden
        else (do class ← classify_group_event event limits; screen_class event id reader class)

  unfoldable pub require_visible :
      PocketEvent → Option PublicKeyHex → GroupLimitsConfig → Result GroupError (Unit {0})
  require_visible event reader limits = do
    decision ← screen_event event reader limits
    elim decision [ visible ↦ ok tt | hidden ↦ err non_enumerating_group_error ]

  abbrev pub is_visible : GroupReadDecision → Bool
  is_visible visible = true
  is_visible hidden = false

  -- The loop over the authenticated keys.
  unfoldable pub visible_to_any :
      PocketEvent → List PublicKeyHex → GroupLimitsConfig → Result GroupError Bool
  visible_to_any event [] limits = ok false
  visible_to_any event (pubkey ∷ pubkeys) limits = do
    decision ← screen_event event (some pubkey) limits
    elim (is_visible decision) [ true ↦ ok true | false ↦ visible_to_any event pubkeys limits ]

  unfoldable pub event_visible_to_auth :
      PocketEvent → GroupAuthContext → GroupLimitsConfig → Result GroupError Bool
  unfolding visible_to_any
  event_visible_to_auth event auth limits = elim auth.authenticated_pubkeys [
    | [] ↦ do decision ← screen_event event none limits; ok (is_visible decision)
    | pubkey ∷ pubkeys ↦ visible_to_any event (pubkey ∷ pubkeys) limits
  ]
