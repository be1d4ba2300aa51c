-- ===== src/Groups/ReadGate/Spec.antt =====
-- Which events a reader may see, stated without the order of the tests of the read gate.
use tangle.Common.{◌≡◌, ◌⊎◌, true, false, Option, none, some, ok, list_ord, nat_ord, ◌≡◌, ◌||◌}
use tangle.Protocol.{EventId, PublicKeyHex, Kind}
use tangle.Groups.Config.{GroupLimitsConfig}
use tangle.Groups.Ids.{GroupId}
use tangle.Groups.Kinds.{delete_group, group_metadata, group_admins}
use tangle.Groups.EventView.{PocketEvent, event_id}
use tangle.Groups.Classification.{
  GroupEventClass, non_group, normal, moderation, relay_generated_snapshot, classify_group_event,
}
use tangle.Groups.Projection.{GroupState, GroupTombstone, group_of, tombstone_of, event_deletion_of}
use tangle.Groups.ReadGate.{GroupReadGate, reader_can_read}

-- What lets a reader see a group: nothing when it is open, membership when it is not.
abbrev pub Admits : GroupReadGate → GroupId → GroupState → Option PublicKeyHex → Type 0
Admits gate g group reader =
    ((group.metadata.hidden || group.metadata.private) ≡ false)
    ⊎ (reader_can_read gate g reader ≡ true)

pub record ReadsGroup (gate : GroupReadGate) (g : GroupId) (reader : Option PublicKeyHex)
    : Type 0 where
  pub group : GroupState
  pub found : group_of gate.projection g ≡ some group
  pub unburied : tombstone_of gate.projection g ≡ none
  pub admits : Admits gate g group reader

-- The event is the one that deleted the group.
pub record ReadsMarker (gate : GroupReadGate) (id : EventId) (g : GroupId)
    (reader : Option PublicKeyHex) : Type 0 where
  pub group : GroupState
  pub found : group_of gate.projection g ≡ some group
  pub tombstone : GroupTombstone
  pub buried : tombstone_of gate.projection g ≡ some tombstone
  pub marks : tombstone.delete_event_id ≡ id
  pub admits : Admits gate g group reader

pub record ReadsSnapshot (gate : GroupReadGate) (kind : Kind) (g : GroupId)
    (reader : Option PublicKeyHex) : Type 0 where
  pub group : GroupState
  pub found : group_of gate.projection g ≡ some group
  pub unburied : tombstone_of gate.projection g ≡ none
  pub admits :
      (reader_can_read gate g reader ≡ true)
      ⊎ ((group.metadata.hidden ≡ false)
          × ((group.metadata.private ≡ false) ⊎ (kind ≡ group_metadata) ⊎ (kind ≡ group_admins)))

abbrev pub MayReadClass :
    GroupReadGate → PocketEvent → EventId → Option PublicKeyHex → GroupEventClass → Type 0
MayReadClass gate event id reader non_group = Unit {0}
MayReadClass gate event id reader (normal g) = ReadsGroup gate g reader
MayReadClass gate event id reader (moderation kind g) =
    ReadsGroup gate g reader ⊎ ((event.kind_u32 ≡ delete_group) × ReadsMarker gate id g reader)
MayReadClass gate event id reader (relay_generated_snapshot kind g) =
    ReadsSnapshot gate kind g reader

pub record MayRead (gate : GroupReadGate) (event : PocketEvent) (limits : GroupLimitsConfig)
    (reader : Option PublicKeyHex) : Type 0 where
  pub id : EventId
  pub class : GroupEventClass
  pub id_of : event_id event ≡ ok id
  pub kept : event_deletion_of gate.projection id ≡ none
  pub class_of : classify_group_event event limits ≡ ok class
  pub permitted : MayReadClass gate event id reader class
