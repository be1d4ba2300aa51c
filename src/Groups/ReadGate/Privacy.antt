-- ===== src/Groups/ReadGate/Privacy.antt =====
-- What outsiders of a hidden group and readers of a deleted one see of it.
use tangle.Common.{◌≡◌, ◌≢◌, true, false, Option, some, ok, arith, list_ord, nat_ord, ◌≡◌}
use tangle.Protocol.{EventId, PublicKeyHex}
use tangle.Groups.Config.{GroupLimitsConfig}
use tangle.Groups.Ids.{GroupId}
use tangle.Groups.EventView.{PocketEvent, event_id}
use tangle.Groups.Classification.{
  GroupEventClass, non_group, normal, moderation, relay_generated_snapshot, classify_group_event,
  class_group_id,
}
use tangle.Groups.Projection.{GroupState, GroupTombstone, group_of, tombstone_of}
use tangle.Groups.ReadGate.{GroupReadGate, visible, reader_can_read, screen_event}
use tangle.Groups.ReadGate.Spec.{MayReadClass}
use tangle.Groups.ReadGate.Decides.{screen_event_iff}

module _ (gate : GroupReadGate) (event : PocketEvent) (limits : GroupLimitsConfig)
    (reader : Option PublicKeyHex) (g : GroupId) where
  hidden-ne-read :
      (group : GroupState) (id : EventId) (class : GroupEventClass)
      → group_of gate.projection g ≡ some group
      → group.metadata.hidden ≡ true
      → reader_can_read gate g reader ≡ false
      → class_group_id class ≡ some g
      → ¬ MayReadClass gate event id reader class
  unfolding class_group_id
  hidden-ne-read group id non_group found is_hidden outside c m = cc
  hidden-ne-read group id (normal h) found is_hidden outside c m = ground arith
  hidden-ne-read group id (moderation kind h) found is_hidden outside c m = ground arith
  hidden-ne-read group id (relay_generated_snapshot kind h) found is_hidden outside c m =
      ground arith

  buried-marker :
      (t : GroupTombstone) (id : EventId) (class : GroupEventClass)
      → tombstone_of gate.projection g ≡ some t
      → class_group_id class ≡ some g
      → MayReadClass gate event id reader class
      → t.delete_event_id ≡ id
  unfolding class_group_id
  buried-marker t id non_group buried c m = cc
  buried-marker t id (normal h) buried c m = ground arith
  buried-marker t id (moderation kind h) buried c m = ground arith
  buried-marker t id (relay_generated_snapshot kind h) buried c m = ground arith

module _ (gate : GroupReadGate) (event : PocketEvent) (limits : GroupLimitsConfig)
    (reader : Option PublicKeyHex) (class : GroupEventClass) (g : GroupId)
    (class_of : classify_group_event event limits ≡ ok class)
    (of_group : class_group_id class ≡ some g) where
  -- No event of a hidden group is shown to a reader who is neither an administrator nor a current
  -- member, whatever the event is.
  pub hidden_group_unseen :
      (group : GroupState)
      → group_of gate.projection g ≡ some group
      → group.metadata.hidden ≡ true
      → reader_can_read gate g reader ≡ false
      → screen_event gate event reader limits ≢ ok visible
  unfolding class_group_id
  hidden_group_unseen group found is_hidden outside h =
      let m = (screen_event_iff gate event limits reader).0 h in
      hidden-ne-read gate event limits reader g group m.id m.class found is_hidden outside
        (ground arith) m.permitted

  -- Of a deleted group nobody is shown anything but the event that deleted it.
  pub deleted_group_unseen :
      (t : GroupTombstone)
      → tombstone_of gate.projection g ≡ some t
      → screen_event gate event reader limits ≡ ok visible
      → event_id event ≡ ok t.delete_event_id
  unfolding class_group_id
  deleted_group_unseen t buried h =
      let m = (screen_event_iff gate event limits reader).0 h in
      rw (buried-marker gate event limits reader g t m.id m.class buried (ground arith) m.permitted)
        m.id_of
